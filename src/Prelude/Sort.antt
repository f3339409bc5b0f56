-- ===== src/Prelude/Sort.antt =====
-- Python's stable `sorted` and `list.sort`, for a total test `leb x y` of the keys.
use goodputlab.Prelude.{
  ℕ, ◌≤◌, suc, ◌+◌, ◌≡◌, ◌++◌, inl, inr, refl, Bool, true, false, List, [], ◌∷◌, if◌then◌else◌,
  arith, Bool-cases, length, All, All-map,
}

-- `[x for x in xs if test(x)]`
unfoldable pub filter {ℓ} : {A : Type ℓ} → (A → Bool) → List A → List A
filter test [] = []
filter test (x ∷ xs) = if test x then x ∷ filter test xs else filter test xs

pub filter-filter {ℓ} :
    {A : Type ℓ} (test : A → Bool) (xs : List A) → filter test (filter test xs) ≡ filter test xs
unfolding filter
filter-filter test [] = refl
filter-filter test (x ∷ xs) = ground (arith, filter-filter test xs)

pub length-filter {ℓ} :
    {A : Type ℓ} (test : A → Bool) (xs : List A) → length (filter test xs) ≤ length xs
unfolding filter
length-filter test [] = omega arith
length-filter test (x ∷ xs) = ground (arith, length-filter test xs)

pub length-filter-append {ℓ} :
    {A : Type ℓ} (test : A → Bool) (xs ys : List A)
    → length (filter test (xs ++ ys)) ≡ length (filter test xs) + length (filter test ys)
unfolding filter
length-filter-append test [] ys = omega arith
length-filter-append test (x ∷ xs) ys = ground (arith, length-filter-append test xs ys)

pub All-filter {ℓ κ} :
    {A : Type ℓ} (P : A → Type κ) (test : A → Bool) (xs : List A)
    → All P xs
    → All (λ x. P x × (test x ≡ true)) (filter test xs)
unfolding filter
All-filter P test [] h = tt
All-filter P test (x ∷ xs) h = elim (Bool-cases (test x)) [
  | inl e ↦ rw e ((h.0, e), All-filter P test xs h.1)
  | inr e ↦ rw e (All-filter P test xs h.1)
]

pub All-of_filter {ℓ κ} :
    {A : Type ℓ} (P : A → Type κ) (test : A → Bool) (xs : List A)
    → All P (filter test xs)
    → All (λ x. test x ≡ true → P x) xs
unfolding filter
All-of_filter P test [] h = tt
All-of_filter P test (x ∷ xs) h = elim (Bool-cases (test x)) [
  | inl e ↦ let (here, rest) = rw e at h in ((λ _. here), All-of_filter P test xs rest)
  | inr e ↦ ((λ up. cc), All-of_filter P test xs (rw e at h))
]

module _ {ℓ} {A : Type ℓ} (le : A → A → Bool) where
  unfoldable pub insert : A → List A → List A
  insert x [] = x ∷ []
  insert x (y ∷ ys) = if le x y then x ∷ y ∷ ys else y ∷ insert x ys

  unfoldable pub sort : List A → List A
  unfolding insert
  sort [] = []
  sort (x ∷ xs) = insert x (sort xs)

  module _ {κ} (P : A → Type κ) where
    pub All-insert : (x : A) (ys : List A) → P x → All P ys → All P (insert x ys)
    unfolding insert
    All-insert x [] p h = (p, tt)
    All-insert x (y ∷ ys) p h = elim (Bool-cases (le x y)) [
      | inl e ↦ rw e (p, h)
      | inr e ↦ rw e (h.0, All-insert x ys p h.1)
    ]

    pub All-sort : (xs : List A) → All P xs → All P (sort xs)
    unfolding sort
    All-sort [] h = tt
    All-sort (x ∷ xs) h = All-insert x (sort xs) h.0 (All-sort xs h.1)

    -- What holds of the sorted list holds of the list.
    pub All-of_insert : (x : A) (ys : List A) → All P (insert x ys) → P x × All P ys
    unfolding insert
    All-of_insert x [] h = h
    All-of_insert x (y ∷ ys) h = elim (Bool-cases (le x y)) [
      | inl e ↦ rw e at h
      | inr e ↦ let (hy, hr) = rw e at h in let (hx, hys) = All-of_insert x ys hr in (hx, (hy, hys))
    ]

    pub All-of_sort : (xs : List A) → All P (sort xs) → All P xs
    unfolding sort
    All-of_sort [] h = tt
    All-of_sort (x ∷ xs) h = let (hx, hr) = All-of_insert x (sort xs) h in (hx, All-of_sort xs hr)

  -- A list in ascending order of a number that the test decides, but for ties.
  module _ (m : A → ℕ) where
    abbrev pub IsAscending : List A → Type 0
    IsAscending [] = Unit
    IsAscending (x ∷ xs) = All (λ y. m x ≤ m y) xs × IsAscending xs

    module _ (below : (x y : A) → le x y ≡ true → m x ≤ m y)
        (above : (x y : A) → le x y ≡ false → m y ≤ m x) where
      insert-IsAscending : (x : A) (ys : List A) → IsAscending ys → IsAscending (insert x ys)
      unfolding insert
      insert-IsAscending x [] h = (tt, tt)
      insert-IsAscending x (y ∷ ys) h = elim (Bool-cases (le x y)) [
        | inl e ↦
            let first : m x ≤ m y = below x y e in
            rw e ((first, All-map (λ z (k : m y ≤ m z). omega arith) ys h.0), h)
        | inr e ↦
            rw e (All-insert (λ z. m y ≤ m z) x ys (above x y e) h.0, insert-IsAscending x ys h.1)
      ]

      pub sort-IsAscending : (xs : List A) → IsAscending (sort xs)
      unfolding sort
      sort-IsAscending [] = tt
      sort-IsAscending (x ∷ xs) = insert-IsAscending x (sort xs) (sort-IsAscending xs)

  pub length-insert : (x : A) (ys : List A) → length (insert x ys) ≡ suc (length ys)
  unfolding insert
  length-insert x [] = refl
  length-insert x (y ∷ ys) = ground (arith, length-insert x ys)

  pub length-sort : (xs : List A) → length (sort xs) ≡ length xs
  unfolding sort
  length-sort [] = refl
  length-sort (x ∷ xs) = omega (arith, length-insert x (sort xs), length-sort xs)
