-- ===== src/Bench/KvScaling/Window/Sound.antt =====
-- The readings that a sample returns, over any engine.
use goodputlab.Prelude.{
  ℕ, zero, suc, ◌≡◌, refl, sym, ap, ◌∙◌, subst, ◌⊎◌, inl, inr, Bool, true, false, some, List, arith,
  eq_of_some, Option-cases, Bool-cases,
}
use goodputlab.Bench.KvScaling.Engine.{Action, EngineDriver, StepOutput, ◌>>=◌, lift, Ensures-after}
use goodputlab.Bench.KvScaling.Window.{
  Sample, batch_size, check_block_consistency, SampleReadings, Progress, Reading, Window, active,
  all_started, any_value, all_values, live_tokens, freeze, absent, gate, freeze_at, post_gate,
  advance, take_outputs, pre_step, post_step, loop, finish, fresh_window, measure, record_outputs,
  to_bytes,
}
use goodputlab.Bench.KvScaling.Window.Gate.{
  IsCovered, check-IsCovered, Started, active-all_started, Started-all_started, Grows,
  record_outputs-Grows, Started-Grows,
}
use goodputlab.Prelude.Int.{ℤ, ◌-ℤ◌, ◌≤ℤ◌, ltb_ℤ}
use goodputlab.Prelude.Result.{ok, Ensures, of_Ensures, to_Ensures, Result-cases}

freeze-cases :
    (w : Window) (r : Reading) (scheduled : Bool) {w' : Window}
    → freeze w r scheduled ≡ ok w'
    → (w'.progress ≡ w.progress)
      × ((w'.prefill ≡ w.prefill)
          ⊎ ((w'.prefill ≡ some r) × (scheduled ≡ true) × (any_value w.progress.finished ≡ false)))
      × ((w'.decode ≡ w.decode)
          ⊎ ((w'.decode ≡ some r)
              × (any_value w.progress.finished ≡ false)
              × (absent w'.prefill ≡ false)))
unfolding freeze
freeze-cases w r scheduled h = ground arith

module _ (s : Sample) where
  -- The readings that were taken are covered, and a batch whose prefill was read has started.
  pub record IsSound (w : Window) : Type 0 where
    pub prefill : (r : Reading) → w.prefill ≡ some r → IsCovered s r.used r.live
    pub started : (r : Reading) → w.prefill ≡ some r → Started s.request_ids w.progress
    pub decode : (r : Reading) → w.decode ≡ some r → IsCovered s r.used r.live

  module _ (w : Window) (r : Reading)
      (covered : all_started w.progress.generated (active w.progress s.request_ids) ≡ true
        → IsCovered s r.used r.live)
      (v : IsSound w) where
    abbrev scheduled : Bool
    scheduled = all_started w.progress.generated (active w.progress s.request_ids)

    module _ (w' : Window) (e : freeze w r scheduled ≡ ok w') where
      freeze-Started : (q : Reading) → w'.prefill ≡ some q → Started s.request_ids w.progress
      freeze-Started q f = elim (freeze-cases w r scheduled e).1 [
        | inl k ↦ v.started q (sym k ∙ f)
        | inr (k, all, none_is) ↦ active-all_started w.progress s.request_ids none_is all
      ]

      freeze_prefill : (q : Reading) → w'.prefill ≡ some q → IsCovered s q.used q.live
      freeze_prefill q f = elim (freeze-cases w r scheduled e).1 [
        | inl k ↦ v.prefill q (sym k ∙ f)
        | inr (k, all, _) ↦
            subst (λ x. IsCovered s x.used x.live) (eq_of_some (sym k ∙ f)) (covered all)
      ]

      freeze_decode : (q : Reading) → w'.decode ≡ some q → IsCovered s q.used q.live
      freeze_decode q f = elim (freeze-cases w r scheduled e).2 [
        | inl k ↦ v.decode q (sym k ∙ f)
        | inr (k, _, there) ↦ elim (Option-cases w'.prefill) [
          | inl none_there ↦ absurd (ground arith)
          | inr (x, g) ↦
              subst (λ y. IsCovered s y.used y.live) (eq_of_some (sym k ∙ f))
                (covered (Started-all_started w.progress s.request_ids (freeze-Started x g)))
        ]
      ]

      freeze-IsSound : IsSound w'
      freeze-IsSound = record {
        prefill = freeze_prefill;
        started = λ q f.
            subst (Started s.request_ids) (sym (freeze-cases w r scheduled e).0)
              (freeze-Started q f);
        decode = freeze_decode;
      }

  module _ (engine : EngineDriver) (total : ℤ) where
    gate_covered :
        (w : Window) (free : ℤ)
        → gate engine s total w.progress free ≡ ok tt
        → all_started w.progress.generated (active w.progress s.request_ids) ≡ true
        → IsCovered s (total -ℤ free) (live_tokens w.progress s.request_ids s.prompt_lens)
    unfolding gate
    gate_covered w free passed all = check-IsCovered s _ _ (
        subst
          (λ b.
            check_block_consistency (total -ℤ free)
              (live_tokens w.progress s.request_ids s.prompt_lens) (batch_size s) s.block_size b
            ≡ ok tt)
          all passed)

    post_gate-IsSound :
        (w : Window) (free : ℤ) → IsSound w → Ensures IsSound (post_gate engine s total w free)
    unfolding post_gate freeze_at
    post_gate-IsSound w free v = elim (Result-cases (gate engine s total w.progress free)) [
      | inr (x, e) ↦ rw (e, Ensures) tt
      | inl (_, e) ↦
          rw (e, Ensures)
            (to_Ensures IsSound _ (λ w' f. freeze-IsSound w _ (gate_covered w free e) v w' f))
    ]

    post_step-IsSound :
        (w : Window) (d : engine.Driver)
        → IsSound w
        → Ensures IsSound (post_step engine s total w d).1
    unfolding post_step
    post_step-IsSound w d v =
        Ensures-after IsSound (λ free. lift (post_gate engine s total w free))
          (d, engine.num_free_blocks d) (λ d' free _. post_gate-IsSound w free v)

    -- The outputs of a step.
    grown-IsSound :
        (w : Window) (p : Progress)
        → Grows w.progress p
        → IsSound w
        → IsSound (record w { progress = p })
    grown-IsSound w p g v = record {
      prefill = v.prefill;
      started = λ r e. Started-Grows s.request_ids w.progress p g (v.started r e);
      decode = v.decode;
    }

    module _ (rest : Window → Action engine.Driver Window)
        (kept : (w : Window) (d : engine.Driver) → IsSound w → Ensures IsSound (rest w d).1) where
      advance-IsSound :
          (w : Window) (p : Progress) (d : engine.Driver)
          → IsSound (record w { progress = p })
          → Ensures IsSound (advance engine s total rest w p d).1
      unfolding advance
      advance-IsSound w p d v = elim (Bool-cases (all_values p.finished)) [
        | inl e ↦ rw e v
        | inr e ↦ rw e (
            Ensures-after IsSound rest (post_step engine s total (record w { progress = p }) d)
              (λ d' w' f. kept w' d' (
                of_Ensures IsSound _ (post_step-IsSound (record w { progress = p }) d v)
                  (ap (λ x. x.1) f))))
      ]

      take_outputs-IsSound :
          (w : Window) (outs : List StepOutput) (d : engine.Driver)
          → IsSound w
          → Ensures IsSound (take_outputs engine s total rest w outs d).1
      unfolding take_outputs
      take_outputs-IsSound w outs d v =
          Ensures-after IsSound (advance engine s total rest w) (d, record_outputs outs w.progress)
            (λ d' p e. advance-IsSound w p d' (
              grown-IsSound w p
                (of_Ensures (Grows w.progress) (record_outputs outs w.progress)
                  (record_outputs-Grows outs w.progress) (ap (λ x. x.1) e))
                v))

    loop-IsSound :
        (n : ℕ) (w : Window) (d : engine.Driver)
        → IsSound w
        → Ensures IsSound (loop engine s total n w d).1
    unfolding loop
    loop-IsSound zero w d v = tt
    loop-IsSound (suc n) w d v =
        Ensures-after IsSound
          (λ _. engine.step >>= take_outputs engine s total (loop engine s total n) w)
          (pre_step engine s total w d)
          (λ d1 _ _.
            Ensures-after IsSound (take_outputs engine s total (loop engine s total n) w)
              (engine.step d1)
              (λ d2 outs _.
                take_outputs-IsSound (loop engine s total n) (loop-IsSound n) w outs d2 v))

  -- What a sample promises of its readings. The blocks of each cover its live tokens, with at
  -- most one block for each request and 64 slots to spare; the decode reading is not below the
  -- prefill reading; and the bytes are those of the used blocks.
  pub record IsConsistent (r : SampleReadings) : Type 0 where
    pub prefill : IsCovered s r.used_blocks_prefill r.live_tokens_prefill
    pub decode : IsCovered s r.used_blocks_decode r.live_tokens_decode
    pub ordered : r.used_blocks_prefill ≤ℤ r.used_blocks_decode
    pub prefill_bytes : r.kv_bytes_prefill ≡ to_bytes s r.used_blocks_prefill
    pub decode_bytes : r.kv_bytes_decode ≡ to_bytes s r.used_blocks_decode

  finish-IsConsistent : (w : Window) → IsSound w → Ensures IsConsistent (finish s w)
  unfolding finish
  finish-IsConsistent w v = elim (Option-cases w.prefill) [
    | inl e ↦ rw (e, Ensures) tt
    | inr (p, e) ↦ elim (Option-cases w.decode) [
      | inl f ↦ rw (e, f, Ensures) tt
      | inr (d, f) ↦ elim (Bool-cases (ltb_ℤ d.used p.used)) [
        | inl g ↦ rw (e, f, g, Ensures) tt
        | inr g ↦
            rw (e, f, g, Ensures)
              (record {
                prefill = v.prefill p e;
                decode = v.decode d f;
                ordered = ground arith;
                prefill_bytes = refl;
                decode_bytes = refl;
              })
      ]
    ]
  ]

  module _ (engine : EngineDriver) where
    pub measure-IsConsistent :
        (total : ℤ) (d : engine.Driver) → Ensures IsConsistent (measure engine s total d).1
    unfolding measure
    measure-IsConsistent total d =
        Ensures-after IsConsistent (λ w. lift (finish s w))
          (loop engine s total _ (fresh_window s) d)
          (λ d' w e. finish-IsConsistent w (
            of_Ensures IsSound _
              (loop-IsSound engine total _ (fresh_window s) d (record {
                prefill = λ r f. absurd (ground arith);
                started = λ r f. absurd (ground arith);
                decode = λ r f. absurd (ground arith);
              }))
              (ap (λ x. x.1) e)))
