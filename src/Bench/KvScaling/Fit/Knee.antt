-- ===== src/Bench/KvScaling/Fit/Knee.antt =====
-- bench/kv_scaling/measure.py: the knee that `find_knee` returns, among all measured cells.
use goodputlab.Prelude.{
  ℕ, ◌≤◌, ◌≡◌, ◌≢◌, refl, sym, ◌∙◌, ap, true, false, List, [], ◌∷◌, arith, All, All-map, Bool-cases,
  inl, inr,
}
use goodputlab.Bench.KvScaling.Cells.{KvScalingCell}
use goodputlab.Bench.KvScaling.Fit.{
  KneePoint, kv_share, half, first_knee, find_knee, check_knee, knee_at, tokens_leb,
}
use goodputlab.Prelude.Float.{FloatOps}
use goodputlab.Prelude.Int.{pos}
use goodputlab.Prelude.Result.{ok, raise, value_error, Result-cases, eq_of_ok, raise_ne}
use goodputlab.Prelude.Sort.{sort, IsAscending, sort-IsAscending, All-sort, All-of_sort}
use mathlib.Core.List.{Mem, mem-cons_self, mem-cons_of_mem}

All-Mem : {A : Type 0} (xs : List A) → All (λ x. Mem x xs) xs
All-Mem [] = tt
All-Mem (x ∷ xs) =
    (mem-cons_self, All-map (λ y (h : Mem y xs). mem-cons_of_mem x h) xs (All-Mem xs))

differ : false ≢ true
differ h = cc

module _ (fl : FloatOps) (baseline : ℕ) where
  -- The cell's share is at least one half.
  abbrev pub Reaches : KvScalingCell → Type 0
  Reaches c = (share : fl.F) × (kv_share fl baseline c ≡ ok share) × (fl.le (half fl) share ≡ true)

  -- The cell's share is a number, and it is not.
  abbrev pub Misses : KvScalingCell → Type 0
  Misses c = (share : fl.F) × (kv_share fl baseline c ≡ ok share) × (fl.le (half fl) share ≡ false)

  abbrev AtMost : KneePoint fl → KvScalingCell → Type 0
  AtMost k c = Reaches c → k.total_tokens ≤ c.total_tokens

  -- The knee is that of a cell which reaches one half, and no cell that does has fewer tokens.
  abbrev pub IsKnee : List KvScalingCell → KneePoint fl → Type 0
  IsKnee cells k =
      ((c : KvScalingCell) × Mem c cells
        × ((share : fl.F) × (kv_share fl baseline c ≡ ok share)
            × (fl.le (half fl) share ≡ true)
            × (k ≡ knee_at fl c share)))
      × All (AtMost k) cells

  check_knee-eq : (k k' : KneePoint fl) → check_knee fl k ≡ ok k' → k ≡ k'
  unfolding check_knee
  check_knee-eq k k' h = ground (arith, h)

  abbrev Ascending : List KvScalingCell → Type 0
  Ascending cells = IsAscending tokens_leb (λ c. c.total_tokens) cells

  -- The cell that a knee is at, with a property that all the cells have.
  abbrev IsFound : (KvScalingCell → Type 0) → KneePoint fl → Type 0
  IsFound P k =
      (c : KvScalingCell) × P c
      × ((share : fl.F) × (kv_share fl baseline c ≡ ok share)
          × (fl.le (half fl) share ≡ true)
          × (k ≡ knee_at fl c share))

  first_knee-IsFound :
      (P : KvScalingCell → Type 0) (cells : List KvScalingCell) (k : KneePoint fl)
      → Ascending cells
      → All P cells
      → first_knee fl baseline cells ≡ ok k
      → IsFound P k × All (AtMost k) cells
  unfolding first_knee
  first_knee-IsFound P [] k up p h = cc
  first_knee-IsFound P (c ∷ cells) k up p h = elim (Result-cases (kv_share fl baseline c)) [
    | inr (x, e) ↦ absurd (raise_ne (rw (e, first_knee) at h))
    | inl (share, e) ↦ elim (Bool-cases (fl.le (half fl) share)) [
      | inl high ↦
          let same : knee_at fl c share ≡ k =
            check_knee-eq (knee_at fl c share) k (rw (e, high, first_knee) at h) in
          let tokens : c.total_tokens ≡ k.total_tokens =
            ap (λ (q : KneePoint fl). q.total_tokens) same in
          (
            (c, p.0, (share, e, high, sym same)),
            (
              (λ _. omega (arith, tokens)),
              All-map {Q = AtMost k}
                  (λ b (l : c.total_tokens ≤ b.total_tokens) _. omega (arith, tokens)) cells up.0,
            ),
          )
      | inr low ↦
          let (found, least) =
            first_knee-IsFound P cells k up.1 p.1 (rw (e, low, first_knee) at h) in
          (
            found,
            (
              (λ (other, eq, high).
                  let same : share ≡ other = eq_of_ok (sym e ∙ eq) in
                  absurd (differ (sym low ∙ ap (fl.le (half fl)) same ∙ high))),
              least,
            ),
          )
    ]
  ]

  first_knee-Misses :
      (cells : List KvScalingCell)
      → All Misses cells
      → first_knee fl baseline cells ≡ raise value_error
  unfolding first_knee
  first_knee-Misses [] h = refl
  first_knee-Misses (c ∷ cells) ((share, e, low), h) =
      rw (e, low, first_knee) (first_knee-Misses cells h)

  -- The knee that `find_knee` returns is at a measured cell whose share of KV bytes is at least one
  -- half, with that cell's tokens and batch, and no measured cell whose share is at least one half
  -- has fewer tokens. When the share of every measured cell is a number that is not at least one
  -- half, ValueError is raised.
  pub find_knee-IsKnee :
      (cells : List KvScalingCell)
      → ((k : KneePoint fl) → find_knee fl cells (pos baseline) ≡ ok k → IsKnee cells k)
        × (All Misses cells → find_knee fl cells (pos baseline) ≡ raise value_error)
  unfolding find_knee
  find_knee-IsKnee cells =
      let up =
        sort-IsAscending tokens_leb (λ c. c.total_tokens) (λ x y h. ground arith)
          (λ x y h. ground arith) cells in
      (
        (λ k h.
            let (found, least) =
              first_knee-IsFound (λ c. Mem c cells) (sort tokens_leb cells) k up
                (All-sort tokens_leb (λ c. Mem c cells) cells (All-Mem cells)) h in
            (found, All-of_sort tokens_leb (AtMost k) cells least)),
        (λ h. first_knee-Misses (sort tokens_leb cells) (All-sort tokens_leb Misses cells h)),
      )
