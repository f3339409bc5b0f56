-- ===== src/Control/Router/Select.antt =====
-- `_select_admissible` of control/router.py: what it finds, and when it finds nothing.
use goodputlab.Prelude.{
  ◌≤◌, ◌≡◌, true, false, none, some, List, [], ◌∷◌, All, All-map, Bool-cases, inl, inr, arith,
}
use goodputlab.Prelude.Float.{FloatOps}
use goodputlab.Prelude.Sort.{IsAscending}
use goodputlab.Control.Pool.{Pool, PoolState}
use goodputlab.Core.Trace.{RequestSpec}
use goodputlab.Control.Router.{AdmissionPolicy, entry_leb, admissible, first_admissible}

module _ (fl : FloatOps) (policy : AdmissionPolicy fl) (spec : RequestSpec) where
  -- Admission looks at the health first.
  pub admissible-healthy : (s : PoolState) → admissible fl policy spec s ≡ true → s.healthy ≡ true
  unfolding admissible
  admissible-healthy s h = ground arith

  module _ (P : Pool × PoolState → Type 0) where
    -- The entry that was found, and what is known of the whole list.
    abbrev pub Found : Pool → Type 0
    Found p = (s : PoolState) × P (p, s) × (admissible fl policy spec s ≡ true)

    pub first_admissible-Found :
        (es : List (Pool × PoolState)) {p : Pool}
        → All P es
        → first_admissible fl policy spec es ≡ some p
        → Found p
    unfolding first_admissible
    first_admissible-Found [] h e = cc
    first_admissible-Found ((q, s) ∷ es) {p} h e = elim (Bool-cases (admissible fl policy spec s)) [
      | inl ok ↦ let same : q ≡ p = ground arith in (s, rw same at h.0, ok)
      | inr not_ok ↦ first_admissible-Found es h.1 (rw not_ok at e)
    ]

  pub first_admissible-eq-none :
      (es : List (Pool × PoolState))
      → first_admissible fl policy spec es ≡ none
      → All (λ e. admissible fl policy spec e.1 ≡ false) es
  unfolding first_admissible
  first_admissible-eq-none [] e = tt
  first_admissible-eq-none ((q, s) ∷ es) e = elim (Bool-cases (admissible fl policy spec s)) [
    | inl ok ↦ absurd (ground arith)
    | inr not_ok ↦ (not_ok, first_admissible-eq-none es (rw not_ok at e))
  ]

  -- No entry that admits the request has a smaller depth.
  abbrev pub Least : PoolState → Pool × PoolState → Type 0
  Least s e = admissible fl policy spec e.1 ≡ true → s.queue_depth ≤ e.1.queue_depth

  pub first_admissible-Least :
      (P : Pool × PoolState → Type 0) (es : List (Pool × PoolState)) {p : Pool}
      → IsAscending entry_leb (λ e. e.1.queue_depth) es
      → All P es
      → first_admissible fl policy spec es ≡ some p
      → (s : PoolState) × P (p, s) × (admissible fl policy spec s ≡ true) × All (Least s) es
  unfolding first_admissible
  first_admissible-Least P [] up h e = cc
  first_admissible-Least P ((q, s) ∷ es) {p} up h e =
      elim (Bool-cases (admissible fl policy spec s)) [
        | inl ok ↦
            let same : q ≡ p = ground arith in
            (s, rw same at h.0, ok, (λ _. omega arith, All-map (λ x le _. le) es up.0))
        | inr not_ok ↦
            let (t, found, fits, least) = first_admissible-Least P es up.1 h.1 (rw not_ok at e) in
            (t, found, fits, (λ ok. cc, least))
      ]
