-- ===== src/Core/Trace/Valid.antt =====
-- What the validators of request telemetry and of arrival processes let through.
use goodputlab.Prelude.{
  ℕ, ◌≤◌, ◌≡◌, ◌↔◌, refl, false, none, some, List, [], ◌∷◌, arith, All, All-map,
}
use goodputlab.Core.Trace.{RequestTelemetry, check_telemetry, falls}
use goodputlab.Prelude.Float.{FloatOps}
use goodputlab.Prelude.Result.{ok}

-- Each element is at most all that follow it.
abbrev pub IsMonotone : List ℕ → Type 0
IsMonotone [] = Unit
IsMonotone (x ∷ xs) = All (λ y. x ≤ y) xs × IsMonotone xs

falls-All :
    (prev : ℕ) (v : List ℕ) → falls (some prev) v ≡ false → All (λ y. prev ≤ y) v × IsMonotone v
unfolding falls
falls-All prev [] h = (tt, tt)
falls-All prev (x ∷ v) h =
    let here : prev ≤ x = ground arith in
    let (later, rest) = falls-All x v (ground arith) in
    ((here, All-map (λ y (k : x ≤ y). omega arith) v later), (later, rest))

All-falls :
    (prev : ℕ) (v : List ℕ) → All (λ y. prev ≤ y) v → IsMonotone v → falls (some prev) v ≡ false
unfolding falls
All-falls prev [] h k = refl
All-falls prev (x ∷ v) h k =
    let up : prev ≤ x = h.0 in let rest = All-falls x v k.0 k.1 in ground arith

falls-IsMonotone : (v : List ℕ) → (falls none v ≡ false) ↔ IsMonotone v
unfolding falls
falls-IsMonotone [] = ((λ _. tt), (λ _. refl))
falls-IsMonotone (x ∷ v) = (falls-All x v, (λ h. All-falls x v h.0 h.1))

module _ (fl : FloatOps) where
  -- Telemetry is accepted, unchanged, exactly when its prompt has 1 to 200000 tokens, its status
  -- is from 100 to 599 and no time of a token lies before an earlier one's.
  pub check_telemetry-IsMonotone :
      (t : RequestTelemetry fl)
      → (check_telemetry fl t ≡ ok t) ↔ (
          (1 ≤ t.prompt_tokens)
          × (t.prompt_tokens ≤ 200000)
          × (100 ≤ t.status_code)
          × (t.status_code ≤ 599)
          × IsMonotone t.per_token_ts_ns)
  unfolding check_telemetry
  check_telemetry-IsMonotone t =
      let (monotone, steady) = falls-IsMonotone t.per_token_ts_ns in
      (
        (λ h.
            let flat : falls none t.per_token_ts_ns ≡ false = ground arith in
            (ground arith, ground arith, ground arith, ground arith, monotone flat)),
        (λ h.
            let flat = steady h.4 in
            let a = h.0 in let b = h.1 in let c = h.2 in let d = h.3 in ground arith),
      )
