-- ===== src/Bench/KvScaling/Fake/Rounds.antt =====
-- The rounds of a sample on the fake engine: each passes its gates, and the loop comes to its end.
use goodputlab.Prelude.{
  ℕ, zero, suc, ◌+◌, ◌*◌, ◌≤◌, ◌<◌, ◌≡◌, refl, sym, subst, ◌∙◌, ap, Bool, true, false, none, some,
  List, [], ◌∷◌, arith, leb, length, inl, inr, ◌⊎◌,
}
use goodputlab.Bench.KvScaling.Engine.{Action, ◌>>=◌, lift, after}
use goodputlab.Bench.KvScaling.Fake.{FakeEngineDriver, fake, step, num_free_blocks}
use goodputlab.Bench.KvScaling.Fake.Lockstep.{
  IsDistinct, progress, from_keys-tag, any_value-tag, all_values-tag, live_tokens-live, active-ids,
  all_started-tag, tokens_of-tag, record_outputs-progress,
}
use goodputlab.Bench.KvScaling.Fake.Uniform.{
  Batch, ids, lens, tag, outs, live, blocks, engine, usage, usage-le, step-engine, blocks-covers,
  blocks-tight, blocks_mono,
}
use goodputlab.Bench.KvScaling.Window.{
  Sample, Reading, Window, active, all_started, live_tokens, gate, pre_step, freeze, freeze_at,
  post_gate, post_step, advance, take_outputs, loop, finish, measure, fresh_window, all_values,
  record_outputs,
}
use goodputlab.Prelude.Int.{ℤ, pos, ltb_ℤ}
use goodputlab.Prelude.Result.{ok}
use goodputlab.Prelude.Text.{Text}
use goodputlab.Bench.KvScaling.Fake.Sampled.{
  sample_for, readings, to_bytes-pos, used_back, check-ok, length-ids,
}

module _ (d : FakeEngineDriver) (first : Text × ℕ) (others : Batch) (prompts : List Text)
    (n chunks bpt : ℕ) (positive : 0 < d.block_size) (distinct : IsDistinct (first ∷ others)) where
  abbrev b : Batch
  b = first ∷ others

  abbrev s : Sample
  s = sample_for d b prompts n chunks bpt

  abbrev total : ℤ
  total = pos d.total_blocks

  abbrev at : ℕ → FakeEngineDriver
  at j = engine d false n j b

  live-progress : (j : ℕ) → live_tokens (progress false j b) (ids b) (lens b) ≡ live j b
  live-progress j = live_tokens-live j b b (tokens_of-tag j b)

  not_yet : all_started (tag 0 b) (ids b) ≡ false
  unfolding all_started
  not_yet = let none_yet = (tokens_of-tag 0 b).0 in ground (arith, none_yet)

  scheduled-zero : all_started (tag 0 b) (active (progress false 0 b) (ids b)) ≡ false
  scheduled-zero = rw (active-ids 0 b b) not_yet

  scheduled-suc :
      (j : ℕ) → all_started (tag (suc j) b) (active (progress false (suc j) b) (ids b)) ≡ true
  scheduled-suc j = rw (active-ids (suc j) b b) (all_started-tag j b b (tokens_of-tag (suc j) b))

  bounded :
      (j : ℕ)
      → usage false d.block_size j b * d.block_size ≤ live j b + length b * d.block_size + 64
  bounded zero = omega arith
  bounded (suc j) = omega (arith, blocks-tight d.block_size (suc j) b positive)

  covered :
      (j : ℕ)
      → (all_started (tag j b) (active (progress false j b) (ids b)) ≡ false)
        ⊎ (live j b ≤ usage false d.block_size j b * d.block_size)
  covered zero = inl scheduled-zero
  covered (suc j) = inr (blocks-covers d.block_size (suc j) b positive)

  gate-ok :
      (j : ℕ)
      → usage false d.block_size j b ≤ d.total_blocks
      → gate fake s total (progress false j b) (num_free_blocks (at j)) ≡ ok tt
  unfolding gate num_free_blocks
  gate-ok j h =
      let used = usage false d.block_size j b in
      let scheduled = all_started (tag j b) (active (progress false j b) (ids b)) in
      rw (used_back d.total_blocks used h, live-progress j, length-ids b)
        (check-ok used (live j b) (length b) d.block_size scheduled (bounded j) (covered j))

  reading : ℕ → Reading
  reading j = record { used = pos (blocks d.block_size j b); live = live j b }

  -- The window after `j` steps, before the last.
  abbrev window : ℕ → Window
  window zero = record { progress = progress false 0 b; prefill = none; decode = none }
  window (suc j) = record {
    progress = progress false (suc j) b;
    prefill = some (reading 1);
    decode = some (reading (suc j));
  }

  fresh-window : fresh_window s ≡ window 0
  fresh-window = rw (from_keys-tag {A = ℕ} 0 [] b distinct, from_keys-tag false [] b distinct)

  -- The window after `j` steps when its count has gone one further.
  abbrev counted : Bool → ℕ → Window
  counted fin j = record (window j) { progress = progress fin (suc j) b }

  pre_step-ok :
      (j : ℕ)
      → usage false d.block_size j b ≤ d.total_blocks
      → pre_step fake s total (window j) (at j) ≡ (at j, ok tt)
  unfolding pre_step
  pre_step-ok zero h = ap (λ r. (at 0, r)) (gate-ok 0 h)
  pre_step-ok (suc j) h = ap (λ r. (at (suc j), r)) (gate-ok (suc j) h)

  freeze_at-window :
      (j : ℕ)
      → blocks d.block_size (suc j) b ≤ d.total_blocks
      → freeze_at fake s total (counted false j) (num_free_blocks (at (suc j)))
        ≡ ok (window (suc j))
  unfolding freeze_at freeze num_free_blocks reading
  freeze_at-window zero h = rw (
    used_back d.total_blocks (blocks d.block_size 1 b) h,
    live-progress 1,
    scheduled-suc 0,
    any_value-tag b,
  )
  freeze_at-window (suc j) h = rw (
    used_back d.total_blocks (blocks d.block_size (suc (suc j)) b) h,
    live-progress (suc (suc j)),
    any_value-tag b,
  )

  post_gate-window :
      (j : ℕ)
      → blocks d.block_size (suc j) b ≤ d.total_blocks
      → post_gate fake s total (counted false j) (num_free_blocks (at (suc j)))
        ≡ ok (window (suc j))
  unfolding post_gate
  post_gate-window zero h = rw (post_gate, gate-ok 1 h, freeze_at-window 0 h)
  post_gate-window (suc j) h = rw (post_gate, gate-ok (suc (suc j)) h, freeze_at-window (suc j) h)

  post_step-window :
      (j : ℕ)
      → blocks d.block_size (suc j) b ≤ d.total_blocks
      → post_step fake s total (counted false j) (at (suc j)) ≡ (at (suc j), ok (window (suc j)))
  unfolding post_step
  post_step-window j h = ap (λ r. (at (suc j), r)) (post_gate-window j h)

  window-progress : (j : ℕ) → (window j).progress ≡ progress false j b
  window-progress zero = refl
  window-progress (suc j) = refl

  outputs-window :
      (fin : Bool) (j : ℕ)
      → record_outputs (outs fin b) (window j).progress ≡ ok (progress fin (suc j) b)
  outputs-window fin j =
      let one_more : j + 1 ≡ suc j = omega arith in
      ap (record_outputs (outs fin b)) (window-progress j)
      ∙ record_outputs-progress fin j b distinct
      ∙ ap (λ i. ok (progress fin i b)) one_more

  step-window :
      (fin : Bool) (j : ℕ)
      → leb n (suc j) ≡ fin
      → usage fin d.block_size (suc j) b ≤ d.total_blocks
      → step (at j) ≡ (engine d fin n (suc j) b, ok (outs fin b))
  step-window fin j e room =
      subst (λ f. step (at j) ≡ (engine d f n (suc j) b, ok (outs f b))) e
        (step-engine d n j b
          (subst (λ f. usage f d.block_size (suc j) b ≤ d.total_blocks) (sym e) room))

  module _ (rest : Window → Action FakeEngineDriver Window) where
    take_outputs-going :
        (j : ℕ)
        → blocks d.block_size (suc j) b ≤ d.total_blocks
        → take_outputs fake s total rest (window j) (outs false b) (at (suc j))
          ≡ rest (window (suc j)) (at (suc j))
    unfolding take_outputs advance all_values
    take_outputs-going j room =
        ap (λ r. after (advance fake s total rest (window j)) (at (suc j), r))
          (outputs-window false j)
        ∙ ap (after rest) (post_step-window j room)

    take_outputs-last :
        (j : ℕ)
        → take_outputs fake s total rest (window j) (outs true b) (engine d true n (suc j) b)
          ≡ (engine d true n (suc j) b, ok (counted true j))
    unfolding take_outputs advance
    take_outputs-last j =
        ap (λ r. after (advance fake s total rest (window j)) (engine d true n (suc j) b, r))
          (outputs-window true j)
        ∙ rw (advance, all_values-tag b)

  -- One step of the loop, up to the outputs.
  loop-outputs :
      (fin : Bool) (fuel j : ℕ)
      → leb n (suc j) ≡ fin
      → usage fin d.block_size (suc j) b ≤ d.total_blocks
      → usage false d.block_size j b ≤ d.total_blocks
      → loop fake s total (suc fuel) (window j) (at j)
        ≡ take_outputs fake s total
            (loop fake s total fuel)
            (window j)
            (outs fin b)
            (engine d fin n (suc j) b)
  unfolding loop
  loop-outputs fin fuel j e room before =
      let outputs = take_outputs fake s total (loop fake s total fuel) (window j) in
      ap (after (λ _. step >>= outputs)) (pre_step-ok j before)
      ∙ ap (after outputs) (step-window fin j e room)

  abbrev Fits : ℕ → Type 0
  Fits j = blocks d.block_size j b ≤ d.total_blocks

  Fits-usage : (j : ℕ) → Fits j → usage false d.block_size j b ≤ d.total_blocks
  Fits-usage j h = omega (arith, usage-le false d.block_size j b, h)

  Fits-mono : (i j : ℕ) → i ≤ j → Fits j → Fits i
  Fits-mono i j l h = omega (arith, blocks_mono d.block_size i j b positive l, h)

  -- The last step.
  loop-last :
      (m fuel : ℕ)
      → suc m ≡ n
      → Fits m
      → loop fake s total (suc fuel) (window m) (at m) ≡ (engine d true n n b, ok (counted true m))
  loop-last m fuel e room =
      let done : leb n (suc m) ≡ true = ground (arith, e) in
      loop-outputs true fuel m done (omega arith) (Fits-usage m room)
      ∙ take_outputs-last (loop fake s total fuel) m
      ∙ ap (λ i. (engine d true n i b, ok (counted true m))) e

  -- The loop from the j-th step on, with `k` steps before the last.
  loop-counted :
      (k j m fuel : ℕ)
      → j + k ≡ m
      → suc m ≡ n
      → k < fuel
      → Fits m
      → loop fake s total fuel (window j) (at j) ≡ (engine d true n n b, ok (counted true m))
  loop-counted k j m zero at_m e enough room = absurd (omega (arith, enough))
  loop-counted zero j m (suc fuel) at_m e enough room =
      let here : m ≡ j = omega (arith, at_m) in
      subst
        (λ i.
          loop fake s total (suc fuel) (window i) (at i)
          ≡ (engine d true n n b, ok (counted true m)))
        here (loop-last m fuel e room)
  loop-counted (suc k) j m (suc fuel) at_m e enough room =
      let going : leb n (suc j) ≡ false = ground (arith, at_m, e) in
      let now = Fits-mono j m (omega (arith, at_m)) room in
      let next = Fits-mono (suc j) m (omega (arith, at_m)) room in
      loop-outputs false fuel j going (Fits-usage (suc j) next) (Fits-usage j now)
      ∙ take_outputs-going (loop fake s total fuel) j next
      ∙ loop-counted k (suc j) m fuel (omega (arith, at_m)) e (omega (arith, enough)) room

  finish-counted :
      (i : ℕ) → finish s (counted true (suc i)) ≡ ok (readings d.block_size bpt b (suc i))
  unfolding finish reading
  finish-counted i =
      let grows = blocks_mono d.block_size 1 (suc i) b positive (omega arith) in
      let kept : ltb_ℤ (pos (blocks d.block_size (suc i) b)) (pos (blocks d.block_size 1 b))
          ≡ false =
        ground (arith, grows) in
      rw
        (
          kept,
          to_bytes-pos s (blocks d.block_size 1 b),
          to_bytes-pos s (blocks d.block_size (suc i) b),
        )
        refl

  pub measure-readings :
      (i : ℕ)
      → suc (suc i) ≡ n
      → Fits (suc i)
      → measure fake s total (at 0)
        ≡ (engine d true n n b, ok (readings d.block_size bpt b (suc i)))
  unfolding measure
  measure-readings i e room =
      let whole =
        loop-counted (suc i) 0 (suc i) (chunks + n + 8) (omega arith) e (omega (arith, e)) room in
      ap (λ w. after (λ w. lift (finish s w)) (loop fake s total (chunks + n + 8) w (at 0)))
        fresh-window
      ∙ ap (after (λ w. lift (finish s w))) whole
      ∙ ap (λ r. (engine d true n n b, r)) (finish-counted i)
