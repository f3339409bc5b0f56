-- ===== src/Bench/KvScaling/Fake/Release.antt =====
-- What a sample leaves in the fake engine.
use goodputlab.Prelude.{ℕ, ◌<◌, ◌≡◌, refl, not, true, false, List, [], ◌∷◌, arith, ltb, All}
use goodputlab.Bench.KvScaling.Engine.{◌finally◌}
use goodputlab.Bench.KvScaling.Fake.{
  FakeRequest, FakeEngineDriver, blocks_of, used_by, sync_pool, free_all, end_sample, fake,
}
use goodputlab.Bench.KvScaling.Window.{
  Sample, measure, add_requests, sample_decode_window, check_sample,
}
use goodputlab.Prelude.Int.{pos, ltb_ℤ}
use goodputlab.Prelude.Result.{ok, raise_if, value_error}
use goodputlab.Prelude.Text.{Text}

-- Nothing is used and every request is freed.
pub record IsReleased (d : FakeEngineDriver) : Type 0 where
  pub unused : d.used_blocks ≡ 0
  pub freed : All (λ e. e.1.freed ≡ true) d.requests

pub used_by-free_all :
    (block : ℕ) (requests : List (Text × FakeRequest)) → used_by block (free_all requests) ≡ 0
unfolding used_by free_all blocks_of
used_by-free_all block [] = refl
used_by-free_all block ((rid, q) ∷ requests) = omega (arith, used_by-free_all block requests)

free_all-freed :
    (requests : List (Text × FakeRequest)) → All (λ e. e.1.freed ≡ true) (free_all requests)
unfolding free_all
free_all-freed [] = tt
free_all-freed ((rid, q) ∷ requests) = (refl, free_all-freed requests)

end_sample-IsReleased : (d : FakeEngineDriver) → IsReleased (end_sample d).0
unfolding end_sample sync_pool
end_sample-IsReleased d =
    let fits : ltb d.total_blocks 0 ≡ false = ground arith in
    rw (used_by-free_all d.block_size d.requests, fits)
      (record { unused = refl; freed = free_all-freed d.requests })

-- Once a sample's arguments are accepted and its requests are added, it leaves the fake engine
-- with no block in use and every request freed, whether it returns readings or raises.
pub sample_decode_window-IsReleased :
    (s : Sample) (d : FakeEngineDriver) {d' : FakeEngineDriver}
    → check_sample s ≡ ok tt
    → 0 < d.total_blocks
    → add_requests fake s s.request_ids s.prompts s.prompt_lens d ≡ (d', ok tt)
    → IsReleased (sample_decode_window fake s d).0
unfolding sample_decode_window ◌finally◌
sample_decode_window-IsReleased s d {d' = d'} checked up added =
    let some_blocks : raise_if (not (ltb_ℤ (pos 0) (pos d.total_blocks))) value_error ≡ ok tt =
      ground arith in
    rw (checked, some_blocks, added)
      (end_sample-IsReleased (measure fake s (pos d.total_blocks) d').0)
