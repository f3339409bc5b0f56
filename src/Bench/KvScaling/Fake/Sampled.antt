-- ===== src/Bench/KvScaling/Fake/Sampled.antt =====
-- The sample of a batch in the fake engine, and the readings that it should return.
use goodputlab.Prelude.{
  ℕ, suc, ◌+◌, ◌*◌, ◌≤◌, ◌≡◌, refl, ap, Bool, true, false, List, [], ◌∷◌, arith, length, inl, inr,
  ◌⊎◌,
}
use goodputlab.Bench.KvScaling.Fake.{FakeEngineDriver}
use goodputlab.Bench.KvScaling.Fake.Uniform.{Batch, ids, lens, live, blocks}
use goodputlab.Bench.KvScaling.Window.{Sample, SampleReadings, check_block_consistency, to_bytes}
use goodputlab.Prelude.Int.{pos, sub_ℕ, ◌-ℤ◌, ◌*ℤ◌}
use goodputlab.Prelude.Result.{ok}
use goodputlab.Prelude.Text.{Text}

-- The sample of this batch.
abbrev pub sample_for : FakeEngineDriver → Batch → List Text → ℕ → ℕ → ℕ → Sample
sample_for d b prompts n chunks bpt = record {
  request_ids = ids b;
  prompts = prompts;
  prompt_lens = lens b;
  decode_tokens = n;
  ignore_eos = true;
  prefill_chunks = chunks;
  theory_bpt = bpt;
  block_size = d.block_size;
}

-- The readings of a batch when its last but one step is the `m`-th.
abbrev pub readings : ℕ → ℕ → Batch → ℕ → SampleReadings
readings block bpt b m = record {
  kv_bytes_prefill = pos (blocks block 1 b * (block * bpt));
  kv_bytes_decode = pos (blocks block m b * (block * bpt));
  live_tokens_prefill = live 1 b;
  live_tokens_decode = live m b;
  used_blocks_prefill = pos (blocks block 1 b);
  used_blocks_decode = pos (blocks block m b);
}

pub to_bytes-pos :
    (s : Sample) (used : ℕ) → to_bytes s (pos used) ≡ pos (used * (s.block_size * s.theory_bpt))
unfolding to_bytes ◌*ℤ◌
to_bytes-pos s used = ground arith

pub used_back : (total used : ℕ) → used ≤ total → pos total -ℤ sub_ℕ total used ≡ pos used
unfolding ◌-ℤ◌
used_back total used h = ground (arith, h)

pub check-ok :
    (used live batch block : ℕ) (fully : Bool)
    → used * block ≤ live + batch * block + 64
    → (fully ≡ false) ⊎ (live ≤ used * block)
    → check_block_consistency (pos used) live batch block fully ≡ ok tt
unfolding check_block_consistency
check-ok used live batch block fully h (inl e) = rw e (ground (arith, h))
check-ok used live batch block fully h (inr e) = ground (arith, h, e)

pub length-ids : (b : Batch) → length (ids b) ≡ length b
length-ids [] = refl
length-ids (e ∷ b) = ap suc (length-ids b)
