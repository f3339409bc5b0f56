-- ===== src/Bench/Matrix/Preflight.antt =====
-- bench/preflight.py: the two gates before a paid run. The trace of a cell is an argument, since
-- its generators draw on the random module, and so is the value of the environment's variable,
-- if it is set. `sum` adds from the left.
pub mod Sampling
pub mod Fits
use goodputlab.Prelude.{
  ℕ, zero, suc, ◌+◌, Bool, true, false, not, ◌||◌, Option, none, some, List, [], ◌∷◌, ◌++◌, map,
  ltb, leb, if◌then◌else◌, length, is_yes, min, max, ℕ_discrete,
}
use goodputlab.Bench.KvScaling.Fit.{index, sum}
use goodputlab.Bench.KvScaling.Theory.{lower}
use goodputlab.Bench.Matrix.Cells.{
  Topology, Model, Mix, CellSpec, topology_value, model_value, mix_value,
}
use goodputlab.Core.Trace.{RequestSpec}
use goodputlab.Prelude.Dict
use goodputlab.Prelude.Dict.{or_else}
use goodputlab.Prelude.Float.{FloatOps}
use goodputlab.Prelude.Int.{ℤ, pos, sub_ℕ}
use goodputlab.Prelude.Result.{Result, ok, ◌>>=◌}
use goodputlab.Prelude.Sort.{sort}
use goodputlab.Prelude.Text.{Text, codes, strip, text_discrete}
use mathlib.Core.Option

unfoldable pub mix_discrete : Discrete Mix
mix_discrete = Mix.discrete_by_fields

abbrev pub is_among {ℓ} : {A : Type ℓ} → Discrete A → A → List A → Bool
is_among dec v [] = false
is_among dec v (s ∷ seen) = is_yes (dec s v) || is_among dec v seen

-- The distinct values, each at its first place: the keys that `setdefault` leaves.
unfoldable pub unique {ℓ} : {A : Type ℓ} → Discrete A → List A → List A → List A
unique dec seen [] = seen
unique dec seen (v ∷ vs) = unique dec (if is_among dec v seen then seen else seen ++ v ∷ []) vs

-- `spend_approved`, from the flag and the variable.
unfoldable pub spend_approved : Bool → Option Text → Bool
unfolding strip text_discrete
spend_approved flag env =
    flag || is_yes (text_discrete (lower (strip (Option.get_or env []))) (codes "yes"))

-- A bucket holds six cells at most.
abbrev pub capped {ℓ} : {A : Type ℓ} → ℕ → A → List A → List A
capped n x bucket = if ltb (length bucket) n then bucket ++ x ∷ [] else bucket

abbrev pub Sampled : Type 0
Sampled = List (Mix × List CellSpec)

abbrev pub bucket : Mix → Sampled → List CellSpec
bucket mix sampled = Option.get_or (Dict.lookup mix_discrete mix sampled) []

-- The first loop of `build_prompt_preflight`.
unfoldable pub add_sample : CellSpec → Sampled → Sampled
add_sample spec sampled =
    Dict.set mix_discrete spec.mix (capped 6 spec (bucket spec.mix sampled)) sampled

unfoldable pub sample_cells : List CellSpec → Sampled → Sampled
unfolding add_sample
sample_cells [] sampled = sampled
sample_cells (spec ∷ specs) sampled = sample_cells specs (add_sample spec sampled)

abbrev pub max_of : ℕ → List ℕ → ℕ
max_of a [] = a
max_of a (x ∷ xs) = max_of (max a x) xs

abbrev pub min_of : ℕ → List ℕ → ℕ
min_of a [] = a
min_of a (x ∷ xs) = min_of (min a x) xs

abbrev pub total : List ℕ → ℕ
total [] = 0
total (x ∷ xs) = x + total xs

module _ (fl : FloatOps) where
  open fl use {F, of_int, add, mul, div, true_div, lt, round}

  -- `max(a, b)`
  abbrev max_float : F → F → F
  max_float a b = if lt a b then b else a

  unfoldable pub estimate_cell_seconds : CellSpec → F
  estimate_cell_seconds spec =
      add
        (div (of_int (pos (spec.n_warmup + spec.n_measure)))
          (max_float (of_int (pos spec.rate_rps)) (true_div (pos 1) (pos 1000000))))
        (of_int (pos 45))

  pub record CostPreflight : Type 0 where
    pub n_total_cells : ℕ
    pub n_pending_cells : ℕ
    pub n_skipped_cells : ℤ
    pub topologies : List Text
    pub models : List Text
    pub rates_rps : List ℕ
    pub mixes : List Text
    pub n_warmup : ℕ
    pub n_measure : ℕ
    pub est_wall_minutes : F
    pub cost_per_hour_usd : F
    pub est_cost_usd : F
    pub output_dir : Text
    pub smoke : Bool

  abbrev first_or_zero : (CellSpec → ℕ) → List CellSpec → ℕ
  first_or_zero value [] = 0
  first_or_zero value (spec ∷ specs) = value spec

  unfoldable pub build_cost_preflight : List CellSpec → ℕ → F → Text → Bool → CostPreflight
  unfolding estimate_cell_seconds unique text_discrete sort ℕ_discrete
  build_cost_preflight pending n_total cost_per_hour output_dir smoke =
      let est_wall_s = sum fl (map estimate_cell_seconds pending) (of_int (pos 0)) in
      record {
        n_total_cells = n_total;
        n_pending_cells = length pending;
        n_skipped_cells = sub_ℕ n_total (length pending);
        topologies = unique text_discrete [] (map (λ s. topology_value s.topology) pending);
        models = unique text_discrete [] (map (λ s. model_value s.model) pending);
        rates_rps = sort leb (unique ℕ_discrete [] (map (λ s. s.rate_rps) pending));
        mixes = unique text_discrete [] (map (λ s. mix_value s.mix) pending);
        n_warmup = first_or_zero (λ s. s.n_warmup) pending;
        n_measure = first_or_zero (λ s. s.n_measure) pending;
        est_wall_minutes = div est_wall_s (of_int (pos 60));
        cost_per_hour_usd = cost_per_hour;
        est_cost_usd = mul (div est_wall_s (of_int (pos 3600))) cost_per_hour;
        output_dir = output_dir;
        smoke = smoke;
      }

  pub record MixPromptStats : Type 0 where
    pub mix : Text
    pub n_requests : ℕ
    pub min_prompt_tokens : ℕ
    pub mean_prompt_tokens : F
    pub p95_prompt_tokens : ℕ
    pub max_prompt_tokens : ℕ
    pub max_prompt_plus_output_tokens : ℕ

  pub record PromptPreflight : Type 0 where
    pub max_model_len : Option ℕ
    pub per_mix : List MixPromptStats

  abbrev over : ℕ → List MixPromptStats → List Text
  over limit [] = []
  over limit (s ∷ stats) =
      let rest = over limit stats in
      if ltb limit s.max_prompt_plus_output_tokens then s.mix ∷ rest else rest

  unfoldable pub overflow_mixes : PromptPreflight → List Text
  overflow_mixes pf = elim pf.max_model_len [ none ↦ [] | some limit ↦ over limit pf.per_mix ]

  -- `PromptPreflight.ok`
  unfoldable pub is_ok : PromptPreflight → Bool
  unfolding overflow_mixes
  is_ok pf = elim (overflow_mixes pf) [ [] ↦ true | _ ∷ _ ↦ false ]

  -- `_p95`
  unfoldable pub p95 : List ℕ → Result ℕ
  unfolding sort
  p95 [] = ok 0
  p95 (v ∷ vs) = do
    k ← round (mul (true_div (pos 95) (pos 100)) (of_int (pos (length vs))))
    index (sort leb (v ∷ vs)) k

  -- The statistics of one mix, none if its traces have no request.
  unfoldable pub mix_stats : Mix → List RequestSpec → Result (List MixPromptStats)
  unfolding p95
  mix_stats mix [] = ok []
  mix_stats mix (r ∷ rs) = do
    let tokens = map (λ q. q.prompt_tokens) rs
    let budgets = map (λ q. q.prompt_tokens + q.output_tokens) rs
    p ← p95 (r.prompt_tokens ∷ tokens)
    ok (
        record {
          mix = mix_value mix;
          n_requests = length (r ∷ rs);
          min_prompt_tokens = min_of r.prompt_tokens tokens;
          mean_prompt_tokens =
              true_div (pos (total (r.prompt_tokens ∷ tokens))) (pos (length (r ∷ rs)));
          p95_prompt_tokens = p;
          max_prompt_tokens = max_of r.prompt_tokens tokens;
          max_prompt_plus_output_tokens = max_of (r.prompt_tokens + r.output_tokens) budgets;
        }
        ∷ [])

  module _ (build_trace : CellSpec → Result (List RequestSpec)) where
    -- The requests of the cells' traces, in order.
    unfoldable pub requests_of : List CellSpec → Result (List RequestSpec)
    requests_of [] = ok []
    requests_of (spec ∷ specs) = do
      here ← build_trace spec
      rest ← requests_of specs
      ok (here ++ rest)

    -- The second loop of `build_prompt_preflight`.
    unfoldable pub per_mix : Sampled → Result (List MixPromptStats)
    unfolding requests_of mix_stats
    per_mix [] = ok []
    per_mix ((mix, specs) ∷ sampled) = do
      requests ← requests_of specs
      here ← mix_stats mix requests
      rest ← per_mix sampled
      ok (here ++ rest)

    unfoldable pub build_prompt_preflight : List CellSpec → Option ℕ → Result PromptPreflight
    unfolding per_mix sample_cells
    build_prompt_preflight specs max_model_len = do
      stats ← per_mix (sample_cells specs [])
      ok (record { max_model_len = max_model_len; per_mix = stats })
