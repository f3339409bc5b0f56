-- ===== src/Bench/KvScaling/Window/Readings.antt =====
-- `sample_decode_window` as a whole: what it returns, and where it leaves the engine.
use goodputlab.Prelude.{◌≡◌, not}
use goodputlab.Bench.KvScaling.Engine.{
  EngineDriver, ◌>>=◌, ◌>>◌, lift, read, ◌finally◌, finally_result, Ensures-after,
}
use goodputlab.Bench.KvScaling.Window.{
  Sample, SampleReadings, measure, add_requests, sample_decode_window, check_sample,
}
use goodputlab.Bench.KvScaling.Window.Sound.{IsConsistent, measure-IsConsistent}
use goodputlab.Prelude.Int.{pos, ltb_ℤ}
use goodputlab.Prelude.Result.{Result, ok, raise, raise_if, value_error, Ensures, of_Ensures}

module _ (engine : EngineDriver) (s : Sample) where
  open engine use {Driver, num_gpu_blocks, add_request, end_sample}

  Ensures-finally_result :
      (r : Result SampleReadings) (l : Result (Unit {0}))
      → Ensures (IsConsistent s) r
      → Ensures (IsConsistent s) (finally_result r l)
  Ensures-finally_result r (raise e) h = tt
  Ensures-finally_result r (ok _) h = h

  sample-Ensures : (d : Driver) → Ensures (IsConsistent s) (sample_decode_window engine s d).1
  unfolding sample_decode_window ◌finally◌
  sample-Ensures d =
      let adding = add_requests engine s s.request_ids s.prompts s.prompt_lens in
      Ensures-after (IsConsistent s)
        (λ _. read (λ d. ok (num_gpu_blocks d)) >>= λ total.
          lift (raise_if (not (ltb_ℤ (pos 0) total)) value_error)
          >> (adding >> (measure engine s total finally end_sample)))
        (d, check_sample s)
        (λ d1 _ _.
          Ensures-after (IsConsistent s)
            (λ _. adding >> (measure engine s (num_gpu_blocks d1) finally end_sample))
            (d1, raise_if (not (ltb_ℤ (pos 0) (num_gpu_blocks d1))) value_error)
            (λ d2 _ _.
              Ensures-after (IsConsistent s)
                (λ _. measure engine s (num_gpu_blocks d1) finally end_sample) (adding d2)
                (λ d3 _ _.
                  Ensures-finally_result (measure engine s (num_gpu_blocks d1) d3).1 _
                    (measure-IsConsistent s engine (num_gpu_blocks d1) d3))))

  -- On any engine, the readings that a sample returns pass the gate with the whole batch
  -- scheduled: the blocks of each reading cover its live tokens, with at most one block for each
  -- request and 64 slots to spare. The decode reading is not below the prefill reading, and the
  -- bytes are the used blocks times the block size and the bytes per token.
  pub sample_decode_window-IsConsistent :
      (d : Driver) {r : SampleReadings}
      → (sample_decode_window engine s d).1 ≡ ok r
      → IsConsistent s r
  sample_decode_window-IsConsistent d e = of_Ensures (IsConsistent s) _ (sample-Ensures d) e
