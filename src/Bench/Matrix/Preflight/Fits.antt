-- ===== src/Bench/Matrix/Preflight/Fits.antt =====
-- When the prompt preflight lets a run pass.
use goodputlab.Prelude.{
  ℕ, ◌+◌, ◌≤◌, ◌≡◌, ◌↔◌, refl, sym, subst, Bool, true, false, Option, none, some, List, [], ◌∷◌,
  ◌++◌, map, arith, ltb, Bool-cases, inl, inr, All, All-map, max,
}
use goodputlab.Bench.Matrix.Cells.{Mix, CellSpec}
use goodputlab.Bench.Matrix.Preflight.{
  Sampled, bucket, sample_cells, mix_discrete, max_of, MixPromptStats, PromptPreflight, over, is_ok,
  p95, mix_stats, requests_of, per_mix, build_prompt_preflight,
}
use goodputlab.Bench.Matrix.Preflight.Sampling.{
  first_six, bucket-sample_cells, sample_cells-Distinct,
}
use goodputlab.Core.Trace.{RequestSpec}
use goodputlab.Prelude.Dict
use goodputlab.Prelude.Dict.{Distinct}
use goodputlab.Prelude.Float.{FloatOps}
use goodputlab.Prelude.Text.{Text}
use goodputlab.Prelude.Result.{Result, ok, Ensures, Ensures-then, of_Ensures}
use mathlib.Core.Option

max_of-le :
    (limit a : ℕ) (xs : List ℕ) → (max_of a xs ≤ limit) ↔ ((a ≤ limit) × All (λ x. x ≤ limit) xs)
max_of-le limit a [] = ((λ h. (h, tt)), (λ h. h.0))
max_of-le limit a (x ∷ xs) =
    let below = max_of-le limit (max a x) xs in
    (
      (λ h. let (here, rest) = below.0 h in (omega (arith, here), (omega (arith, here), rest))),
      (λ h. below.1 (omega (arith, h.0, h.1.0), h.1.1)),
    )

All-append_iff :
    {A : Type 0} (P : A → Type 0) (xs ys : List A) → All P (xs ++ ys) ↔ (All P xs × All P ys)
All-append_iff P [] ys = ((λ h. (tt, h)), (λ h. h.1))
All-append_iff P (x ∷ xs) ys =
    let rest = All-append_iff P xs ys in
    ((λ h. let (a, b) = rest.0 h.1 in ((h.0, a), b)), (λ h. (h.0.0, rest.1 (h.0.1, h.1))))

module _ (fl : FloatOps) (limit : ℕ) where
  -- The request's prompt and answer fit.
  abbrev pub FitsIn : RequestSpec → Type 0
  FitsIn q = q.prompt_tokens + q.output_tokens ≤ limit

  over-append :
      (a b : List (MixPromptStats fl))
      → (over fl limit (a ++ b) ≡ []) ↔ ((over fl limit a ≡ []) × (over fl limit b ≡ []))
  over-append [] b = ((λ h. (refl, h)), (λ h. h.1))
  over-append (s ∷ a) b =
      let rest = over-append a b in
      elim (Bool-cases (ltb limit s.max_prompt_plus_output_tokens)) [
        | inl e ↦ rw e ((λ h. cc), (λ h. cc))
        | inr e ↦ rw e rest
      ]

  All-budgets :
      (qs : List RequestSpec)
      → All (λ x. x ≤ limit) (map (λ q. q.prompt_tokens + q.output_tokens) qs) ↔ All FitsIn qs
  All-budgets [] = ((λ h. tt), (λ h. tt))
  All-budgets (q ∷ qs) =
      let rest = All-budgets qs in ((λ h. (h.0, rest.0 h.1)), (λ h. (h.0, rest.1 h.1)))

  -- The statistics show an overflow just when a request overflows.
  abbrev Shows : List RequestSpec → List (MixPromptStats fl) → Type 0
  Shows qs stats = (over fl limit stats ≡ []) ↔ All FitsIn qs

  mix_stats-Shows : (mix : Mix) (qs : List RequestSpec) → Ensures (Shows qs) (mix_stats fl mix qs)
  unfolding mix_stats
  mix_stats-Shows mix [] = ((λ h. tt), (λ h. refl))
  mix_stats-Shows mix (q ∷ qs) =
      let budgets = map (λ r. r.prompt_tokens + r.output_tokens) qs in
      let worst = max_of-le limit (q.prompt_tokens + q.output_tokens) budgets in
      let rest = All-budgets qs in
      Ensures-then (Shows (q ∷ qs)) (p95 fl (q.prompt_tokens ∷ map (λ r. r.prompt_tokens) qs)) _
        (λ p e. elim (Bool-cases (ltb limit (max_of (q.prompt_tokens + q.output_tokens) budgets))) [
          | inl above ↦
              rw above ((λ h. cc), (λ h. absurd (ground (arith, above, worst.1 (h.0, rest.1 h.1)))))
          | inr fits ↦
              let (here, there) = worst.0 (ground (arith, fits)) in
              rw fits ((λ h. (here, rest.0 there)), (λ h. refl))
        ])

  module _ (build_trace : CellSpec → Result (List RequestSpec)) where
    -- Every request of a cell's trace fits.
    abbrev pub TraceFits : CellSpec → Type 0
    TraceFits spec = Ensures (All FitsIn) (build_trace spec)

    requests_of-TraceFits :
        (specs : List CellSpec)
        → Ensures (λ qs. All FitsIn qs ↔ All TraceFits specs) (requests_of fl build_trace specs)
    unfolding requests_of
    requests_of-TraceFits [] = ((λ h. tt), (λ h. tt))
    requests_of-TraceFits (spec ∷ specs) =
        Ensures-then (λ qs. All FitsIn qs ↔ All TraceFits (spec ∷ specs)) (build_trace spec) _
          (λ here e.
            Ensures-then (λ qs. All FitsIn qs ↔ All TraceFits (spec ∷ specs))
              (requests_of fl build_trace specs) _
              (λ rest f.
                let below =
                  of_Ensures (λ qs. All FitsIn qs ↔ All TraceFits specs)
                    (requests_of fl build_trace specs) (requests_of-TraceFits specs) f in
                let parts = All-append_iff FitsIn here rest in
                (
                  (λ h.
                      let (mine, theirs) = parts.0 h in
                      (subst (Ensures (All FitsIn)) (sym e) mine, below.0 theirs)),
                  (λ h. parts.1 (of_Ensures (All FitsIn) (build_trace spec) h.0 e, below.1 h.1)),
                )))

    abbrev BucketFits : Mix × List CellSpec → Type 0
    BucketFits e = All TraceFits e.1

    -- The statistics of all buckets show an overflow just when one of their requests overflows.
    abbrev ShowsAll : Sampled → List (MixPromptStats fl) → Type 0
    ShowsAll sampled stats = (over fl limit stats ≡ []) ↔ All BucketFits sampled

    per_mix-ShowsAll :
        (sampled : Sampled) → Ensures (ShowsAll sampled) (per_mix fl build_trace sampled)
    unfolding per_mix
    per_mix-ShowsAll [] = ((λ h. tt), (λ h. refl))
    per_mix-ShowsAll ((mix, specs) ∷ sampled) =
        Ensures-then (ShowsAll ((mix, specs) ∷ sampled)) (requests_of fl build_trace specs) _
          (λ qs e.
            Ensures-then (ShowsAll ((mix, specs) ∷ sampled)) (mix_stats fl mix qs) _ (λ here f.
              Ensures-then (ShowsAll ((mix, specs) ∷ sampled)) (per_mix fl build_trace sampled) _
                (λ rest g.
                  let traces =
                    of_Ensures (λ rs. All FitsIn rs ↔ All TraceFits specs)
                      (requests_of fl build_trace specs) (requests_of-TraceFits specs) e in
                  let mine =
                    of_Ensures (Shows qs) (mix_stats fl mix qs) (mix_stats-Shows mix qs) f in
                  let theirs =
                    of_Ensures (ShowsAll sampled) (per_mix fl build_trace sampled)
                      (per_mix-ShowsAll sampled) g in
                  let parts = over-append here rest in
                  (
                    (λ h. let (a, b) = parts.0 h in (traces.0 (mine.0 a), theirs.0 b)),
                    (λ h. parts.1 (mine.1 (traces.1 h.0), theirs.1 h.1)),
                  ))))

    -- What holds of every bucket holds of every mix, and conversely.
    All-buckets :
        (sampled : Sampled)
        → Distinct sampled
        → All BucketFits sampled ↔ ((mix : Mix) → All TraceFits (bucket mix sampled))
    All-buckets sampled distinct = (
      (λ h mix. by_lookup mix (Dict.lookup mix_discrete mix sampled) refl h),
      (λ h.
          All-map
            (λ e (found : Dict.lookup mix_discrete e.0 sampled ≡ some e.1).
              subst (λ o. All TraceFits (Option.get_or o [])) found (h e.0))
            sampled (Dict.Distinct-lookup mix_discrete sampled distinct)),
    )
      where
        by_lookup :
            (mix : Mix) (o : Option (List CellSpec))
            → Dict.lookup mix_discrete mix sampled ≡ o
            → All BucketFits sampled
            → All TraceFits (Option.get_or o [])
        by_lookup mix none e h = tt
        by_lookup mix (some specs) e h =
            Dict.All-lookup mix_discrete BucketFits mix specs sampled h e

    is_ok-over :
        (stats : List (MixPromptStats fl))
        → (is_ok fl (record { max_model_len = some limit; per_mix = stats }) ≡ true)
          ↔ (over fl limit stats ≡ [])
    unfolding is_ok
    is_ok-over stats = by_list (over fl limit stats)
      where
        by_list :
            (names : List Text)
            → ((elim names as (λ _. Bool) [ [] ↦ true | _ ∷ _ ↦ false ]) ≡ true) ↔ (names ≡ [])
        by_list [] = ((λ h. refl), (λ h. refl))
        by_list (n ∷ names) = ((λ h. cc), (λ h. cc))

    abbrev Passes : List CellSpec → PromptPreflight fl → Type 0
    Passes specs pf = (is_ok fl pf ≡ true) ↔ ((mix : Mix) → All TraceFits (first_six mix specs))

    -- When the prompt preflight of some cells returns, it is ok just when every request of the
    -- traces of the first six cells of each mix has a prompt and an answer within the limit.
    pub build_prompt_preflight-TraceFits :
        (specs : List CellSpec) {pf : PromptPreflight fl}
        → build_prompt_preflight fl build_trace specs (some limit) ≡ ok pf
        → (is_ok fl pf ≡ true) ↔ ((mix : Mix) → All TraceFits (first_six mix specs))
    unfolding build_prompt_preflight
    build_prompt_preflight-TraceFits specs e =
        of_Ensures (Passes specs) (build_prompt_preflight fl build_trace specs (some limit))
          (Ensures-then (Passes specs) (per_mix fl build_trace sampled) _ (λ stats g.
            let shown =
              of_Ensures (ShowsAll sampled) (per_mix fl build_trace sampled)
                (per_mix-ShowsAll sampled) g in
            let all = All-buckets sampled (sample_cells-Distinct specs [] tt) in
            let test = is_ok-over stats in
            let same = λ (mix : Mix). bucket-sample_cells mix specs in
            (
              (λ h mix. subst (All TraceFits) (same mix) (all.0 (shown.0 (test.0 h)) mix)),
              (λ h.
                  test.1 (shown.1 (all.1 (λ mix. subst (All TraceFits) (sym (same mix)) (h mix))))),
            )))
          e
      where
        sampled : Sampled
        sampled = sample_cells specs []
