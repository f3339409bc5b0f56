-- ===== src/Bench/Matrix/Preflight/Sampling.antt =====
-- The cells that the prompt preflight samples: of each mix the first six.
use goodputlab.Prelude.{
  ℕ, zero, suc, ◌≤◌, ◌≡◌, refl, sym, ◌∙◌, ap, Bool, true, false, some, List, [], ◌∷◌, ◌++◌, arith,
  ltb, Bool-cases, inl, inr, if◌then◌else◌, length, length-append, take, is_yes, ite,
}
use goodputlab.Bench.Matrix.Cells.{Mix, CellSpec}
use goodputlab.Bench.Matrix.Preflight.{
  Sampled, bucket, capped, add_sample, sample_cells, mix_discrete,
}
use goodputlab.Prelude.Dict
use goodputlab.Prelude.Dict.{Distinct}
use goodputlab.Prelude.Sort.{filter}
use mathlib.Core.Option
use mathlib.Core.List.{append_assoc, append-nil}

abbrev pub has_mix : Mix → CellSpec → Bool
has_mix mix spec = is_yes (mix_discrete spec.mix mix)

-- The first six cells of a mix.
abbrev pub first_six : Mix → List CellSpec → List CellSpec
first_six mix specs = take 6 (filter (has_mix mix) specs)

module _ {ℓ} {A : Type ℓ} where
  take-append_all : (n : ℕ) (xs ys : List A) → n ≤ length xs → take n (xs ++ ys) ≡ take n xs
  take-append_all zero xs ys h = refl
  take-append_all (suc n) [] ys h = absurd (omega (arith, h))
  take-append_all (suc n) (x ∷ xs) ys h =
      ap (λ t. x ∷ t) (take-append_all n xs ys (omega (arith, h)))

  take_whole : (n : ℕ) (xs : List A) → length xs ≤ n → take n xs ≡ xs
  take_whole zero [] h = refl
  take_whole zero (x ∷ xs) h = absurd (omega (arith, h))
  take_whole (suc n) [] h = refl
  take_whole (suc n) (x ∷ xs) h = ap (λ t. x ∷ t) (take_whole n xs (omega (arith, h)))

  length-capped : (n : ℕ) (x : A) (xs : List A) → length xs ≤ n → length (capped n x xs) ≤ n
  length-capped n x xs h = ground (arith, h, length-append xs (x ∷ []))

  -- A bucket that is full stays as it is.
  take-capped :
      (n : ℕ) (x : A) (xs ys : List A) → take n (capped n x xs ++ ys) ≡ take n (xs ++ x ∷ ys)
  take-capped n x xs ys = elim (Bool-cases (ltb (length xs) n)) [
    | inl room ↦ rw room (ap (take n) (append_assoc xs (x ∷ []) ys))
    | inr full ↦
        let long : n ≤ length xs = ground (arith, full) in
        rw full (take-append_all n xs ys long ∙ sym (take-append_all n xs (x ∷ ys) long))
  ]

bucket-add_sample :
    (mix : Mix) (spec : CellSpec) (sampled : Sampled)
    → bucket mix (add_sample spec sampled)
      ≡ (if has_mix mix spec then capped 6 spec (bucket mix sampled) else bucket mix sampled)
unfolding add_sample
bucket-add_sample mix spec sampled =
    ap (λ o. Option.get_or o [])
      (Dict.lookup-set mix_discrete spec.mix mix (capped 6 spec (bucket spec.mix sampled)) sampled)
    ∙ by_decision (mix_discrete spec.mix mix)
  where
    by_decision :
        (same : Dec (spec.mix ≡ mix))
        → Option.get_or
            (ite same
              (some (capped 6 spec (bucket spec.mix sampled)))
              (Dict.lookup mix_discrete mix sampled))
            []
          ≡ (if is_yes same then capped 6 spec (bucket mix sampled) else bucket mix sampled)
    by_decision (yes e) = ap (λ m. capped 6 spec (bucket m sampled)) e
    by_decision (no _) = refl

take-bucket-sample_cells :
    (mix : Mix) (specs : List CellSpec) (sampled : Sampled)
    → take 6 (bucket mix (sample_cells specs sampled))
      ≡ take 6 (bucket mix sampled ++ filter (has_mix mix) specs)
unfolding sample_cells filter
take-bucket-sample_cells mix [] sampled = ap (take 6) (sym (append-nil (bucket mix sampled)))
take-bucket-sample_cells mix (spec ∷ specs) sampled =
    let rest = filter (has_mix mix) specs in
    take-bucket-sample_cells mix specs (add_sample spec sampled)
    ∙ ap (λ b. take 6 (b ++ rest)) (bucket-add_sample mix spec sampled)
    ∙ elim (has_mix mix spec)
        as (λ b.
          take 6 ((if b then capped 6 spec (bucket mix sampled) else bucket mix sampled) ++ rest)
          ≡ take 6 (bucket mix sampled ++ (if b then spec ∷ rest else rest))) [
            | true ↦ take-capped 6 spec (bucket mix sampled) rest
            | false ↦ refl
          ]

abbrev IsCapped : Sampled → Type 0
IsCapped sampled = (mix : Mix) → length (bucket mix sampled) ≤ 6

add_sample-IsCapped :
    (spec : CellSpec) (sampled : Sampled) → IsCapped sampled → IsCapped (add_sample spec sampled)
add_sample-IsCapped spec sampled h mix =
    rw (bucket-add_sample mix spec sampled)
      (elim (has_mix mix spec)
        as (λ b.
          length (if b then capped 6 spec (bucket mix sampled) else bucket mix sampled) ≤ 6) [
            | true ↦ length-capped 6 spec (bucket mix sampled) (h mix)
            | false ↦ h mix
          ])

sample_cells-IsCapped :
    (specs : List CellSpec) (sampled : Sampled)
    → IsCapped sampled
    → IsCapped (sample_cells specs sampled)
unfolding sample_cells
sample_cells-IsCapped [] sampled h = h
sample_cells-IsCapped (spec ∷ specs) sampled h =
    sample_cells-IsCapped specs (add_sample spec sampled) (add_sample-IsCapped spec sampled h)

pub bucket-sample_cells :
    (mix : Mix) (specs : List CellSpec) → bucket mix (sample_cells specs []) ≡ first_six mix specs
unfolding Dict.lookup
bucket-sample_cells mix specs =
    sym (
      take_whole 6 (bucket mix (sample_cells specs []))
        (sample_cells-IsCapped specs [] (λ m. omega arith) mix))
    ∙ take-bucket-sample_cells mix specs []

pub sample_cells-Distinct :
    (specs : List CellSpec) (sampled : Sampled)
    → Distinct sampled
    → Distinct (sample_cells specs sampled)
unfolding sample_cells add_sample
sample_cells-Distinct [] sampled h = h
sample_cells-Distinct (spec ∷ specs) sampled h =
    sample_cells-Distinct specs (add_sample spec sampled)
      (Dict.set-Distinct mix_discrete spec.mix (capped 6 spec (bucket spec.mix sampled)) sampled h)
