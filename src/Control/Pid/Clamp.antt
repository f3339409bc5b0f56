-- ===== src/Control/Pid/Clamp.antt =====
-- What the controller of control/pid.py guarantees over any sequence of steps.
use goodputlab.Prelude.{
  subst, ap, ◌≡◌, refl, sym, true, false, List, [], ◌∷◌, arith, All, All-map, ◌⊎◌, inl, inr,
  Bool-cases,
}
use goodputlab.Prelude.Float.{FloatOps, FloatLaws}
use goodputlab.Prelude.Result.{
  eq_ok-raise_if, eq_of_ok, value_error, Result, ok, ◌>>=◌, Ensures, Ensures-bind, to_Ensures,
  of_Ensures,
}
use goodputlab.Control.Pid.{zero_float, PidController, init, reset, update, unclamped, saturate}

module _ (fl : FloatOps) where
  open fl use {F, lt, le, eq, add, mul}

  -- What the constructor checks.
  abbrev pub IsValid : PidController fl → Type 0
  IsValid c = le c.out_max c.out_min ≡ false

  -- Neither end of the range is NaN.
  abbrev pub AreNumbers : PidController fl → Type 0
  AreNumbers c = (eq c.out_min c.out_min ≡ true) × (eq c.out_max c.out_max ≡ true)

  -- A number from the least to the greatest output.
  abbrev pub InRange : PidController fl → F → Type 0
  InRange c u = (le c.out_min u ≡ true) × (le u c.out_max ≡ true)

  -- NaN is the value that does not equal itself. The tests of the saturation let it through.
  abbrev pub IsClamped : PidController fl → F → Type 0
  IsClamped c u = (eq u u ≡ false) ⊎ InRange c u

  -- The outputs of a sequence of steps, given as pairs of an error and a `dt`.
  unfoldable pub run : List (F × F) → PidController fl → Result (PidController fl × List F)
  run [] c = ok (c, [])
  run ((error, dt) ∷ steps) c = do
    (c', u) ← update fl c error dt
    (c'', us) ← run steps c'
    ok (c'', u ∷ us)

  pub record Keeps (c c' : PidController fl) : Type 0 where
    pub gains : c'.gains ≡ c.gains
    pub out_min : c'.out_min ≡ c.out_min
    pub out_max : c'.out_max ≡ c.out_max

  update-Keeps :
      (c : PidController fl) (error dt : F) {c' : PidController fl} {u : F}
      → update fl c error dt ≡ ok (c', u)
      → Keeps c c'
  unfolding update
  update-Keeps c error dt h = ground arith

  -- Of the steps that return: a saturated one holds the integral, and any other accumulates the
  -- error and returns its output unclamped.
  update-integral :
      (c : PidController fl) (error dt : F) {c' : PidController fl} {u : F}
      → update fl c error dt ≡ ok (c', u)
      → ((lt c.out_max (unclamped fl c error dt) ≡ true) → c'.integral ≡ c.integral)
        × ((lt (unclamped fl c error dt) c.out_min ≡ true) → c'.integral ≡ c.integral)
        × ((lt c.out_max (unclamped fl c error dt) ≡ false)
            → (lt (unclamped fl c error dt) c.out_min ≡ false)
            → (u ≡ unclamped fl c error dt) × (c'.integral ≡ add c.integral (mul error dt)))
  unfolding update
  update-integral c error dt h = ground arith

  -- A reset takes a controller with a valid range to the one that the constructor makes of its
  -- gains and its range.
  pub reset-init :
      (c : PidController fl) → IsValid c → init fl c.gains c.out_min c.out_max ≡ ok (reset fl c)
  unfolding init reset
  reset-init c v = rw v

  module _ (laws : FloatLaws fl) where
    saturate-IsClamped :
        (c : PidController fl) (u error dt : F)
        → IsValid c
        → AreNumbers c
        → IsClamped c (saturate fl c u error dt).0
    unfolding saturate
    saturate-IsClamped c u error dt v (low, high) =
        let below : le c.out_min c.out_max ≡ true =
          laws.le_of_not_lt c.out_min c.out_max low high
            (ground (arith, v, laws.le_of_lt c.out_max c.out_min)) in
        let top = laws.le_of_not_lt c.out_max c.out_max high high (laws.lt_irrefl c.out_max) in
        let bottom = laws.le_of_not_lt c.out_min c.out_min low low (laws.lt_irrefl c.out_min) in
        elim (Bool-cases (lt c.out_max u)) [
          | inl over ↦ rw over (inr (below, top))
          | inr fits ↦ elim (Bool-cases (lt u c.out_min)) [
            | inl under ↦ rw (fits, under) (inr (bottom, below))
            | inr within ↦
                rw (fits, within)
                  (elim (Bool-cases (eq u u)) [
                    | inl number ↦ inr (
                      laws.le_of_not_lt c.out_min u low number within,
                      laws.le_of_not_lt u c.out_max number high fits,
                    )
                    | inr nan ↦ inl nan
                  ])
          ]
        ]

    update-IsClamped :
        (c : PidController fl) (error dt : F) {c' : PidController fl} {u : F}
        → IsValid c
        → AreNumbers c
        → update fl c error dt ≡ ok (c', u)
        → IsClamped c u
    unfolding update
    update-IsClamped c error dt v n h =
        let clamped = saturate-IsClamped c (unclamped fl c error dt) error dt v n in
        let (_, last) = eq_ok-raise_if (le dt (zero_float fl)) value_error _ h in
        subst (IsClamped c) (ap (λ s. s.1) (eq_of_ok last)) clamped

    abbrev InRun : PidController fl → PidController fl × List F → Type 0
    InRun c r = All (IsClamped c) r.1 × Keeps c r.0

    InRun-cons :
        (c c' : PidController fl) (u : F) (r : PidController fl × List F)
        → IsClamped c u
        → Keeps c c'
        → InRun c' r
        → InRun c (r.0, u ∷ r.1)
    InRun-cons c c' u r here k rest =
        ((here, All-map (λ v h. rw (sym k.out_min, sym k.out_max) h) r.1 rest.0), ground arith)

    run-InRun :
        (steps : List (F × F)) (c : PidController fl)
        → IsValid c
        → AreNumbers c
        → Ensures (InRun c) (run steps c)
    unfolding run
    run-InRun [] c v n = (tt, record { gains = refl; out_min = refl; out_max = refl })
    run-InRun ((error, dt) ∷ steps) c v n =
        Ensures-bind (λ s. IsClamped c s.1 × Keeps c s.0) (InRun c) (update fl c error dt) _
          (to_Ensures (λ s. IsClamped c s.1 × Keeps c s.0) (update fl c error dt)
            (λ s e. (update-IsClamped c error dt v n e, update-Keeps c error dt e)))
          (λ s kept.
            Ensures-bind (InRun s.0) (InRun c) (run steps s.0) _
              (run-InRun steps s.0 (rw (kept.1.out_min, kept.1.out_max) v)
                (rw (kept.1.out_min, kept.1.out_max) n))
              (λ r rest. InRun-cons c s.0 s.1 r kept.0 kept.1 rest))

    -- Every output of a sequence of steps that returns is either NaN or a number in the
    -- controller's range, both ends included, and the steps change neither the gains nor the range.
    -- The range is valid, its ends are numbers and the floats are lawful.
    pub run-IsClamped :
        (steps : List (F × F)) (c : PidController fl) {c' : PidController fl} {us : List F}
        → IsValid c
        → AreNumbers c
        → run steps c ≡ ok (c', us)
        → All (IsClamped c) us × Keeps c c'
    run-IsClamped steps c v n e = of_Ensures (InRun c) (run steps c) (run-InRun steps c v n) e
