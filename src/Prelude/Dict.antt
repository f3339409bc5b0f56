-- ===== src/Prelude/Dict.antt =====
-- Python's `dict` and `OrderedDict`: an association list in the order of insertion, the oldest
-- entry first. A key stands in it at most once.
pub mod Recent
pub mod Last
use goodputlab.Prelude.{
  All, All-map, All-snoc, Option-cases, inl, inr, length-append, sym, eq_of_some, All-both, ◌≢◌,
  ◌∙◌, if_pos, if_neg, suc, ◌+◌, ◌≡◌, ◌≢◌, refl, ite, Option, none, some, List, [], ◌∷◌, ◌++◌, Bool,
  true, false, arith, length,
}

abbrev pub keys {ℓ} : {K V : Type ℓ} → List (K × V) → List K
keys [] = []
keys ((k, _) ∷ d) = k ∷ keys d

-- The first value, or the second if there is none.
abbrev pub or_else {ℓ} : {A : Type ℓ} → Option A → Option A → Option A
or_else none b = b
or_else (some a) b = some a

-- The keys are distinct, as in every dictionary.
abbrev pub Distinct {ℓ} : {K V : Type ℓ} → List (K × V) → Type ℓ
Distinct [] = Unit
Distinct ((k, _) ∷ d) = All (λ e. k ≢ e.0) d × Distinct d

module _ {ℓ} {K V : Type ℓ} (dec : Discrete K) where
  -- `d.get(k)`
  unfoldable pub lookup : K → List (K × V) → Option V
  lookup k [] = none
  lookup k ((j, v) ∷ d) = ite (dec j k) (some v) (lookup k d)

  -- `k in d`
  unfoldable pub contains : K → List (K × V) → Bool
  unfolding lookup
  contains k d = elim (lookup k d) [ none ↦ false | some _ ↦ true ]

  -- `d[k] = v`: a key that is there keeps its place.
  unfoldable pub set : K → V → List (K × V) → List (K × V)
  set k v [] = (k, v) ∷ []
  set k v ((j, w) ∷ d) = ite (dec j k) ((j, v) ∷ d) ((j, w) ∷ set k v d)

  -- `d.pop(k)` without its result.
  unfoldable pub remove : K → List (K × V) → List (K × V)
  remove k [] = []
  remove k ((j, w) ∷ d) = ite (dec j k) d ((j, w) ∷ remove k d)

  -- `d.move_to_end(k)`, for a key that is there.
  unfoldable pub move_to_end : K → List (K × V) → List (K × V)
  unfolding lookup remove
  move_to_end k d = elim (lookup k d) [ none ↦ d | some v ↦ remove k d ++ (k, v) ∷ [] ]

  pub lookup-set :
      (k q : K) (v : V) (d : List (K × V))
      → lookup q (set k v d) ≡ ite (dec k q) (some v) (lookup q d)
  unfolding lookup set
  lookup-set k q v [] = refl
  lookup-set k q v ((j, w) ∷ d) = ground (arith, lookup-set k q v d)

  pub lookup-set_ne :
      (k q : K) (v : V) (d : List (K × V)) → k ≢ q → lookup q (set k v d) ≡ lookup q d
  lookup-set_ne k q v d ne = lookup-set k q v d ∙ if_neg (dec k q) ne _ _

  pub lookup-set_self : (k : K) (v : V) (d : List (K × V)) → lookup k (set k v d) ≡ some v
  lookup-set_self k v d = lookup-set k k v d ∙ if_pos (dec k k) refl _ _

  pub lookup-append :
      (q : K) (d e : List (K × V)) → lookup q (d ++ e) ≡ or_else (lookup q d) (lookup q e)
  unfolding lookup
  lookup-append q [] e = refl
  lookup-append q ((j, w) ∷ d) e = ground (arith, lookup-append q d e)

  pub lookup-remove_ne : (k q : K) (d : List (K × V)) → k ≢ q → lookup q (remove k d) ≡ lookup q d
  unfolding lookup remove
  lookup-remove_ne k q [] h = refl
  lookup-remove_ne k q ((j, w) ∷ d) h = ground (arith, lookup-remove_ne k q d)

  pub length-set :
      (k : K) (v : V) (d : List (K × V))
      → length (set k v d) ≡ elim (lookup k d) [ none ↦ suc (length d) | some _ ↦ length d ]
  unfolding lookup set
  length-set k v [] = refl
  length-set k v ((j, w) ∷ d) = ground (arith, length-set k v d)

  pub length-remove :
      (k : K) (v : V) (d : List (K × V)) → lookup k d ≡ some v → length (remove k d) + 1 ≡ length d
  unfolding lookup remove
  length-remove k v [] h = cc
  length-remove k v ((j, w) ∷ d) h = ground (arith, length-remove k v d)

  pub All-set :
      (P : K × V → Type ℓ) (k : K) (v : V) (d : List (K × V))
      → P (k, v)
      → ((j : K) (w : V) → j ≡ k → P (j, v))
      → All P d
      → All P (set k v d)
  unfolding set
  All-set P k v [] new upd h = (new, tt)
  All-set P k v ((j, w) ∷ d) new upd h =
      elim (dec j k) as (λ t. All P (ite t ((j, v) ∷ d) ((j, w) ∷ set k v d))) [
        | yes e ↦ (upd j w e, h.1)
        | no _ ↦ (h.0, All-set P k v d new upd h.1)
      ]

  pub set-Distinct : (k : K) (v : V) (d : List (K × V)) → Distinct d → Distinct (set k v d)
  unfolding set
  set-Distinct k v [] h = (tt, tt)
  set-Distinct k v ((j, w) ∷ d) h =
      elim (dec j k) as (λ t. Distinct (ite t ((j, v) ∷ d) ((j, w) ∷ set k v d))) [
        | yes e ↦ h
        | no ne ↦ (
          All-set (λ e. j ≢ e.0) k v d ne (λ i _ e same. ne (same ∙ e)) h.0,
          set-Distinct k v d h.1,
        )
      ]

  -- Every entry is what its key looks up.
  pub Distinct-lookup : (d : List (K × V)) → Distinct d → All (λ e. lookup e.0 d ≡ some e.1) d
  unfolding lookup
  Distinct-lookup [] h = tt
  Distinct-lookup ((k, v) ∷ d) h = (
    if_pos (dec k k) refl _ _,
    All-both (λ e. k ≢ e.0) (λ e. lookup e.0 d ≡ some e.1) _
        (λ e ne found. if_neg (dec k e.0) ne _ _ ∙ found) d h.0 (Distinct-lookup d h.1),
  )

  pub All-lookup :
      (P : K × V → Type ℓ) (k : K) (v : V) (d : List (K × V))
      → All P d
      → lookup k d ≡ some v
      → P (k, v)
  unfolding lookup
  All-lookup P k v [] h e = cc
  All-lookup P k v ((j, w) ∷ d) h e = elim (dec j k) [
    | yes same ↦
        let is_w : w ≡ v = eq_of_some (sym (if_pos (dec j k) same _ _) ∙ e) in
        rw (same, is_w) at h.0
    | no ne ↦ All-lookup P k v d h.1 (sym (if_neg (dec j k) ne _ _) ∙ e)
  ]
