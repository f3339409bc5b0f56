-- ===== src/Prelude/Dict/Recent.antt =====
-- `OrderedDict.move_to_end`, and what a removal leaves.
use goodputlab.Prelude.{
  ◌≡◌, ◌≢◌, ◌∙◌, refl, sym, subst, ite, if_pos, if_neg, none, some, List, [], ◌∷◌, ◌++◌, arith,
  length, length-append, All, All-map, All-snoc, Option-cases, inl, inr,
}
use goodputlab.Prelude.Dict.{
  lookup, or_else, set, remove, move_to_end, Distinct, lookup-append, lookup-remove_ne,
  length-remove,
}

module _ {ℓ} {K V : Type ℓ} (dec : Discrete K) where
  pub set-absent :
      (k : K) (v : V) (d : List (K × V)) → lookup dec k d ≡ none → set dec k v d ≡ d ++ (k, v) ∷ []
  unfolding lookup set
  set-absent k v [] h = refl
  set-absent k v ((j, w) ∷ d) h = ground (arith, set-absent k v d)

  All-remove : (P : K × V → Type ℓ) (k : K) (d : List (K × V)) → All P d → All P (remove dec k d)
  unfolding remove
  All-remove P k [] h = tt
  All-remove P k ((j, w) ∷ d) h =
      elim (dec j k) as (λ t. All P (ite t d ((j, w) ∷ remove dec k d))) [
        | yes e ↦ h.1
        | no _ ↦ (h.0, All-remove P k d h.1)
      ]

  pub remove-Distinct : (k : K) (d : List (K × V)) → Distinct d → Distinct (remove dec k d)
  unfolding remove
  remove-Distinct k [] h = tt
  remove-Distinct k ((j, w) ∷ d) h =
      elim (dec j k) as (λ t. Distinct (ite t d ((j, w) ∷ remove dec k d))) [
        | yes e ↦ h.1
        | no _ ↦ (All-remove (λ e. j ≢ e.0) k d h.0, remove-Distinct k d h.1)
      ]

  -- A removed key is gone.
  pub remove_gone : (k : K) (d : List (K × V)) → Distinct d → All (λ e. e.0 ≢ k) (remove dec k d)
  unfolding remove
  remove_gone k [] h = tt
  remove_gone k ((j, w) ∷ d) h =
      elim (dec j k) as (λ t. All (λ e. e.0 ≢ k) (ite t d ((j, w) ∷ remove dec k d))) [
        | yes same ↦ All-map (λ e ne back. ne (same ∙ sym back)) d h.0
        | no ne ↦ (ne, remove_gone k d h.1)
      ]

  pub lookup_absent : (k : K) (d : List (K × V)) → All (λ e. e.0 ≢ k) d → lookup dec k d ≡ none
  unfolding lookup
  lookup_absent k [] h = refl
  lookup_absent k ((j, w) ∷ d) h = if_neg (dec j k) h.0 _ _ ∙ lookup_absent k d h.1

  pub lookup-remove_self :
      (k : K) (d : List (K × V)) → Distinct d → lookup dec k (remove dec k d) ≡ none
  lookup-remove_self k d h = lookup_absent k (remove dec k d) (remove_gone k d h)

  pub snoc-Distinct :
      (k : K) (v : V) (d : List (K × V))
      → Distinct d
      → All (λ e. e.0 ≢ k) d
      → Distinct (d ++ (k, v) ∷ [])
  snoc-Distinct k v [] h far = (tt, tt)
  snoc-Distinct k v ((j, w) ∷ d) h far =
      (All-snoc (λ e. j ≢ e.0) (k, v) d h.0 far.0, snoc-Distinct k v d h.1 far.1)

  pub move_to_end-Distinct :
      (k : K) (d : List (K × V)) → Distinct d → Distinct (move_to_end dec k d)
  unfolding move_to_end
  move_to_end-Distinct k d h = elim (Option-cases (lookup dec k d)) [
    | inl e ↦ rw (e, move_to_end) h
    | inr (v, e) ↦
        rw (e, move_to_end)
          (snoc-Distinct k v (remove dec k d) (remove-Distinct k d h) (remove_gone k d h))
  ]

  pub length-move_to_end : (k : K) (d : List (K × V)) → length (move_to_end dec k d) ≡ length d
  unfolding move_to_end
  length-move_to_end k d = elim (Option-cases (lookup dec k d)) [
    | inl e ↦ rw (e, move_to_end) refl
    | inr (v, e) ↦
        rw (e, move_to_end)
          (omega (arith, length-append (remove dec k d) ((k, v) ∷ []), length-remove dec k v d e))
  ]

  -- Moving a key to the end changes no lookup.
  pub lookup-move_to_end :
      (k q : K) (d : List (K × V))
      → Distinct d
      → lookup dec q (move_to_end dec k d) ≡ lookup dec q d
  unfolding move_to_end lookup
  lookup-move_to_end k q d h = elim (Option-cases (lookup dec k d)) [
    | inl e ↦ rw (e, move_to_end) refl
    | inr (v, e) ↦ rw (e, move_to_end, lookup-append) (moved v e (dec k q))
  ]
    where
      moved :
          (v : V)
          → lookup dec k d ≡ some v
          → Dec (k ≡ q)
          → or_else (lookup dec q (remove dec k d)) (lookup dec q ((k, v) ∷ [])) ≡ lookup dec q d
      moved v e (yes same) =
          subst
            (λ x.
              or_else (lookup dec x (remove dec k d)) (lookup dec x ((k, v) ∷ [])) ≡ lookup dec x d)
            same
            (rw (lookup_absent k (remove dec k d) (remove_gone k d h))
              (if_pos (dec k k) refl _ _ ∙ sym e))
      moved v e (no ne) = rw (lookup-remove_ne dec k q d ne) (elim (Option-cases (lookup dec q d)) [
        | inl n ↦ rw n (if_neg (dec k q) ne _ _)
        | inr (w, found) ↦ rw found refl
      ])
