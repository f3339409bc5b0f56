-- ===== src/Bench/KvScaling/Fake/Complete.antt =====
-- A sample on the fake engine comes to an end, with the readings that the batch determines.
use goodputlab.Prelude.{
  ℕ, suc, ◌+◌, ◌≤◌, ◌<◌, ◌≡◌, refl, ◌∙◌, ap, true, false, not, List, [], ◌∷◌, arith, ltb, ◌==◌,
  length, All,
}
use goodputlab.Bench.KvScaling.Engine.{◌finally◌, finally_result, after}
use goodputlab.Bench.KvScaling.Fake.{FakeEngineDriver, fake, end_sample, sync_pool}
use goodputlab.Bench.KvScaling.Fake.Added.{add_requests-idle}
use goodputlab.Bench.KvScaling.Fake.Lockstep.{IsDistinct}
use goodputlab.Bench.KvScaling.Fake.Release.{used_by-free_all}
use goodputlab.Bench.KvScaling.Fake.Rounds.{measure-readings}
use goodputlab.Bench.KvScaling.Fake.Sampled.{sample_for, readings, length-ids}
use goodputlab.Bench.KvScaling.Fake.Uniform.{Batch, ids, lens, blocks, engine}
use goodputlab.Bench.KvScaling.Window.{measure, sample_decode_window, check_sample, has_zero}
use goodputlab.Prelude.Int.{pos, ltb_ℤ}
use goodputlab.Prelude.Result.{ok, raise_if, value_error}
use goodputlab.Prelude.Text.{Text}

end_sample-ok : (d : FakeEngineDriver) → (end_sample d).1 ≡ ok tt
unfolding end_sample sync_pool
end_sample-ok d =
    let fits : ltb d.total_blocks 0 ≡ false = ground arith in
    rw (used_by-free_all d.block_size d.requests, fits) refl

has_zero-lens : (b : Batch) → All (λ e. 0 < e.1) b → has_zero (lens b) ≡ false
has_zero-lens [] h = refl
has_zero-lens (e ∷ b) h = ground (arith, h.0, has_zero-lens b h.1)

length-lens : (b : Batch) → length (lens b) ≡ length b
length-lens [] = refl
length-lens (e ∷ b) = ap suc (length-lens b)

check_sample-ok :
    (d : FakeEngineDriver) (e : Text × ℕ) (b : Batch) (prompts : List Text) (n chunks bpt : ℕ)
    → 0 < d.block_size
    → 0 < n
    → 0 < bpt
    → All (λ e. 0 < e.1) (e ∷ b)
    → length prompts ≡ length (e ∷ b)
    → check_sample (sample_for d (e ∷ b) prompts n chunks bpt) ≡ ok tt
unfolding check_sample
check_sample-ok d e b prompts n chunks bpt block tokens bytes nonempty enough =
    let none_zero = has_zero-lens (e ∷ b) nonempty in
    let names = length-ids (e ∷ b) in
    let same_lens = length-lens (e ∷ b) in
    let same_prompts : (length prompts == length (ids (e ∷ b))) ≡ true =
      ground (arith, enough, names) in
    let as_many : (length (lens (e ∷ b)) == length (ids (e ∷ b))) ≡ true =
      ground (arith, same_lens, names) in
    let some_block : (d.block_size == 0) ≡ false = ground (arith, block) in
    let some_tokens : (n == 0) ≡ false = ground (arith, tokens) in
    let some_bytes : (bpt == 0) ≡ false = ground (arith, bytes) in
    let some_names : (length (ids (e ∷ b)) == 0) ≡ false = ground arith in
    rw (some_names, same_prompts, as_many, none_zero, some_tokens, some_bytes, some_block) refl

-- On an idle fake engine with a positive block size and pool, a sample of a non-empty batch
-- with distinct names, one prompt per name, positive lengths, a positive number of bytes per
-- token and at least two tokens to decode, which ignores the end of a sequence, comes to its
-- end within its budget of steps when the pool holds the whole batch one token before the last.
-- It returns the live tokens and the blocks in use, rounded up per request, after the first
-- step and after the last but one, whatever the engine's own end of a sequence is.
pub sample_decode_window-readings :
    (d : FakeEngineDriver) (e : Text × ℕ) (b : Batch) (prompts : List Text) (i chunks bpt : ℕ)
    → 0 < d.block_size
    → 0 < d.total_blocks
    → 0 < bpt
    → IsDistinct (e ∷ b)
    → All (λ e. 0 < e.1) (e ∷ b)
    → length prompts ≡ length (e ∷ b)
    → blocks d.block_size (suc i) (e ∷ b) ≤ d.total_blocks
    → (sample_decode_window fake
        (sample_for d (e ∷ b) prompts (i + 2) chunks bpt)
        (record d { requests = []; used_blocks = 0 })).1
      ≡ ok (readings d.block_size bpt (e ∷ b) (suc i))
unfolding sample_decode_window ◌finally◌
sample_decode_window-readings d e b prompts i chunks bpt block pool bytes distinct nonempty enough
      room =
    let n = i + 2 in
    let s = sample_for d (e ∷ b) prompts n chunks bpt in
    let checked =
      check_sample-ok d e b prompts n chunks bpt block (omega arith) bytes nonempty enough in
    let some_blocks : raise_if (not (ltb_ℤ (pos 0) (pos d.total_blocks))) value_error ≡ ok tt =
      ground (arith, pool) in
    let added =
      add_requests-idle d n s [] (e ∷ b) prompts refl refl (omega arith) nonempty distinct enough in
    let measured =
      measure-readings d e b prompts n chunks bpt block distinct i (omega arith) room in
    let found = readings d.block_size bpt (e ∷ b) (suc i) in
    let whole = measure fake s (pos d.total_blocks) finally end_sample in
    rw (checked, some_blocks)
      (ap (λ r. (after (λ _. whole) r).1) added
        ∙ ap (λ r. finally_result r.1 (end_sample r.0).1) measured
        ∙ ap (finally_result (ok found)) (end_sample-ok (engine d true n n (e ∷ b))))
