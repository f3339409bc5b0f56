-- ===== src/Bench/KvScaling/Window.antt =====
-- bench/kv_scaling/measure.py: `sample_decode_window`, over any engine driver. Arguments that the
-- code rejects when they are not positive are natural numbers, since a negative one fails the
-- same test as 0. The log is left out.
mod Batch
pub mod Gate
pub mod Sound
pub mod Readings
pub use Batch.{Sample, batch_size, SampleReadings, has_zero, Progress, from_keys}
unfoldable pub use Batch.{
  check_block_consistency, check_sample, tokens_of, is_finished, active, live_tokens, all_started,
  any_value, all_values, record_output, record_outputs,
}
use goodputlab.Prelude.{
  ℕ, zero, suc, ◌+◌, ◌*◌, Bool, true, false, not, ◌&&◌, ◌||◌, Option, none, some, List, [], ◌∷◌,
  ltb, ◌==◌, if◌then◌else◌, length,
}
use goodputlab.Bench.KvScaling.Engine.{
  StepOutput, Action, EngineDriver, ◌>>=◌, ◌>>◌, lift, read, ◌finally◌,
}
use goodputlab.Prelude.Dict
use goodputlab.Prelude.Int.{ℤ, pos, negsuc, ◌-ℤ◌, ltb_ℤ, ◌*ℤ◌}
use goodputlab.Prelude.Result.{Result, ok, raise, value_error, raise_if}
use goodputlab.Prelude.Sort.{filter}
use goodputlab.Prelude.Text.{Text, text_discrete}

pub record Reading : Type 0 where
  pub used : ℤ
  pub live : ℕ

pub record Window : Type 0 where
  pub progress : Progress
  pub prefill : Option Reading
  pub decode : Option Reading

abbrev pub absent {ℓ} : {A : Type ℓ} → Option A → Bool
absent none = true
absent (some _) = false

-- What follows the gate after a step that did not finish the batch.
unfoldable pub freeze : Window → Reading → Bool → Result Window
unfolding any_value
freeze w r scheduled =
    let some_finished = any_value w.progress.finished in
    let prefill = if absent w.prefill && scheduled then some r else w.prefill in
    let decode = if not (absent prefill) && not some_finished then some r else w.decode in
    if absent w.prefill && some_finished
    then raise value_error
    else ok (record w { prefill = prefill; decode = decode })

unfoldable pub to_bytes : Sample → ℤ → ℤ
to_bytes s used = used *ℤ pos (s.block_size * s.theory_bpt)

-- What follows the loop.
unfoldable pub finish : Sample → Window → Result SampleReadings
unfolding to_bytes
finish s w = elim w.prefill [
  | none ↦ raise value_error
  | some p ↦ elim w.decode [
    | none ↦ raise value_error
    | some d ↦
        if ltb_ℤ d.used p.used
        then raise value_error
        else ok (record {
          kv_bytes_prefill = to_bytes s p.used;
          kv_bytes_decode = to_bytes s d.used;
          live_tokens_prefill = p.live;
          live_tokens_decode = d.live;
          used_blocks_prefill = p.used;
          used_blocks_decode = d.used;
        })
  ]
]

abbrev pub fresh_window : Sample → Window
fresh_window s = record {
  progress = record {
    generated = from_keys 0 s.request_ids [];
    finished = from_keys false s.request_ids [];
  };
  prefill = none;
  decode = none;
}

module _ (engine : EngineDriver) (s : Sample) (total : ℤ) where
  open engine use {Driver, num_free_blocks, step}

  -- The gate before or after a step, for the blocks that are free.
  unfoldable pub gate : Progress → ℤ → Result (Unit {0})
  unfolding check_block_consistency live_tokens all_started active
  gate p free =
      check_block_consistency (total -ℤ free) (live_tokens p s.request_ids s.prompt_lens)
        (batch_size s) s.block_size (all_started p.generated (active p s.request_ids))

  unfoldable pub pre_step : Window → Action Driver (Unit {0})
  unfolding gate
  pre_step w = do free ← read num_free_blocks; lift (gate w.progress free)

  -- The state of the window after a gate that let the free blocks pass.
  unfoldable pub freeze_at : Window → ℤ → Result Window
  unfolding freeze live_tokens all_started active
  freeze_at w free =
      let live = live_tokens w.progress s.request_ids s.prompt_lens in
      freeze w (record { used = total -ℤ free; live = live })
        (all_started w.progress.generated (active w.progress s.request_ids))

  unfoldable pub post_gate : Window → ℤ → Result Window
  unfolding gate freeze_at
  post_gate w free = elim (gate w.progress free) [ raise e ↦ raise e | ok _ ↦ freeze_at w free ]

  unfoldable pub post_step : Window → Action Driver Window
  unfolding post_gate
  post_step w = do free ← read num_free_blocks; lift (post_gate w free)

  -- The end of a step of the loop, where `rest` is the loop that follows it.
  unfoldable pub advance :
      (Window → Action Driver Window) → Window → Progress → Action Driver Window
  unfolding post_step all_values
  advance rest w progress =
      let w' = record w { progress = progress } in
      let continue = post_step w' >>= rest in
      if all_values progress.finished then lift (ok w') else continue

  unfoldable pub take_outputs :
      (Window → Action Driver Window) → Window → List StepOutput → Action Driver Window
  unfolding record_outputs advance
  take_outputs rest w outs = do
    progress ← lift (record_outputs outs w.progress)
    advance rest w progress

  unfoldable pub loop : ℕ → Window → Action Driver Window
  unfolding pre_step take_outputs
  loop zero w = lift (raise value_error)
  loop (suc n) w = do pre_step w; outs ← step; take_outputs (loop n) w outs

module _ (engine : EngineDriver) (s : Sample) where
  open engine use {Driver, num_gpu_blocks, add_request, end_sample}

  -- The lists are as long as each other when this is called.
  unfoldable pub add_requests : List Text → List Text → List ℕ → Action Driver (Unit {0})
  add_requests (rid ∷ ids) (prompt ∷ prompts) (len ∷ lens) = do
    add_request rid prompt s.decode_tokens len s.ignore_eos
    add_requests ids prompts lens
  add_requests _ _ _ = lift (ok tt)

  abbrev pub max_steps : ℕ
  max_steps = s.prefill_chunks + s.decode_tokens + 8

  unfoldable pub measure : ℤ → Action Driver SampleReadings
  unfolding loop finish
  measure total = do w ← loop engine s total max_steps (fresh_window s); lift (finish s w)

  unfoldable pub sample_decode_window : Action Driver SampleReadings
  unfolding check_sample add_requests measure ◌finally◌
  sample_decode_window = do
    lift (check_sample s)
    total ← read (λ d. ok (num_gpu_blocks d))
    lift (raise_if (not (ltb_ℤ (pos 0) total)) value_error)
    add_requests s.request_ids s.prompts s.prompt_lens
    measure total finally end_sample
