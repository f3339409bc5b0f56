-- ===== src/Bench/KvScaling/Fit.antt =====
-- bench/kv_scaling: what a sweep makes of its cells. The percentiles and records of schema.py, and
-- from measure.py the fit, the knee, the gates and the cost preflight. `sum` adds from the left;
-- the square root is a parameter, and `x ** 2` is taken as `x * x`, short of overflow.
pub mod Knee
use goodputlab.Prelude.{
  ℕ, zero, suc, ◌+◌, ◌-◌, ◌*◌, Bool, true, false, not, ◌&&◌, ◌||◌, Option, none, some, List, [],
  ◌∷◌, map, ltb, leb, ◌==◌, if◌then◌else◌, length, get_elem?, min,
}
use goodputlab.Bench.KvScaling.Cells.{KvScalingCell}
use goodputlab.Prelude.Float.{FloatOps}
use goodputlab.Prelude.Int.{ℤ, pos, negsuc, ltb_ℤ, leb_ℤ}
use goodputlab.Prelude.Result.{
  Result, ok, raise, value_error, index_error, zero_division_error, runtime_error, raise_if, ◌>>=◌,
  ◌>>◌,
}
use goodputlab.Prelude.Sort.{sort}
use goodputlab.Prelude.Text.{Text}
use mathlib.Core.Option

abbrev at_or_raise : {A : Type 0} → Option A → Result A
at_or_raise none = raise index_error
at_or_raise (some a) = ok a

-- `xs[i]`; a negative index counts from the end.
abbrev pub index : {A : Type 0} → List A → ℤ → Result A
index xs (pos i) = at_or_raise (get_elem? xs i)
index xs (negsuc i) =
    if ltb i (length xs) then at_or_raise (get_elem? xs (length xs - 1 - i)) else raise index_error

-- `min(lo + 1, n - 1)`, of a positive `n`.
abbrev pub next_index : ℕ → ℤ → ℤ
next_index n (pos i) = pos (min (i + 1) (n - 1))
next_index n (negsuc zero) = pos 0
next_index n (negsuc (suc i)) = negsuc i

abbrev tokens_leb : KvScalingCell → KvScalingCell → Bool
tokens_leb a b = leb a.total_tokens b.total_tokens

module _ (fl : FloatOps) where
  open fl use {F, of_int, add, sub, mul, div, true_div, lt, le, eq, truncate}

  abbrev pub real : ℕ → F
  real n = of_int (pos n)

  -- The two values around the rank, which is not above the last index.
  unfoldable pub interpolate : List F → F → Result F
  interpolate xs rank = do
    lo ← truncate rank
    a ← index xs lo
    b ← index xs (next_index (length xs) lo)
    ok (add a (mul (sub rank (of_int lo)) (sub b a)))

  -- `_percentile`, of sorted values.
  unfoldable pub percentile : List F → F → Result F
  unfolding interpolate
  percentile [] q = interpolate [] (mul q (of_int (negsuc 0)))
  percentile (v ∷ []) q = ok v
  percentile (v ∷ w ∷ vs) q = interpolate (v ∷ w ∷ vs) (mul q (real (length (w ∷ vs))))

  abbrev pub sorted_samples : KvScalingCell → List F
  sorted_samples c = sort le (map of_int c.kv_bytes_used_samples)

  unfoldable pub p50_bytes : KvScalingCell → Result F
  unfolding percentile sort
  p50_bytes c = percentile (sorted_samples c) (true_div (pos 50) (pos 100))

  unfoldable pub p95_bytes : KvScalingCell → Result F
  unfolding percentile sort
  p95_bytes c = percentile (sorted_samples c) (true_div (pos 95) (pos 100))

  -- `a / b` of floats.
  abbrev pub quotient : F → F → Result F
  quotient a b = if eq b (real 0) then raise zero_division_error else ok (div a b)

  unfoldable pub measured_bytes_per_token : KvScalingCell → Result F
  unfolding p50_bytes
  measured_bytes_per_token c = do p50 ← p50_bytes c; quotient p50 (real c.total_tokens)

  pub record RegressionFit : Type 0 where
    pub slope_bpt : F
    pub intercept_bytes : F
    pub r2 : F
    pub residual_se : F

  -- The validation of `RegressionFit`.
  unfoldable pub check_fit : RegressionFit → Result RegressionFit
  check_fit r =
      if le (real 0) r.slope_bpt
        && (le (real 0) r.r2 && (le r.r2 (real 1) && le (real 0) r.residual_se))
      then ok r
      else raise value_error

  pub record KneePoint : Type 0 where
    pub total_tokens : ℕ
    pub kv_share : F
    pub batch_size : ℕ

  -- The validation of `KneePoint`, of a knee on one curve.
  unfoldable pub check_knee : KneePoint → Result KneePoint
  check_knee k =
      if k.total_tokens == 0
        || (not (le (real 0) k.kv_share && le k.kv_share (real 1)) || k.batch_size == 0)
      then raise value_error
      else ok k

  abbrev pub sum : List F → F → F
  sum [] acc = acc
  sum (x ∷ xs) acc = sum xs (add acc x)

  abbrev pub square : F → F
  square x = mul x x

  abbrev pub products : F → F → List F → List F → List F
  products mean_x mean_y (x ∷ xs) (y ∷ ys) =
      mul (sub x mean_x) (sub y mean_y) ∷ products mean_x mean_y xs ys
  products mean_x mean_y _ _ = []

  abbrev pub residuals : F → F → List F → List F → List F
  residuals slope intercept (x ∷ xs) (y ∷ ys) =
      square (sub y (add (mul slope x) intercept)) ∷ residuals slope intercept xs ys
  residuals slope intercept _ _ = []

  -- `fit_bytes_per_token`
  unfoldable pub fit_bytes_per_token : (F → F) → List F → List F → Result RegressionFit
  unfolding check_fit
  fit_bytes_per_token sqrt xs ys = do
    raise_if (not (length xs == length ys)) value_error
    raise_if (ltb (length xs) 2) value_error
    let n = length xs
    let mean_x = div (sum xs (real 0)) (real n)
    let mean_y = div (sum ys (real 0)) (real n)
    let sxx = sum (map (λ x. square (sub x mean_x)) xs) (real 0)
    raise_if (eq sxx (real 0)) value_error
    let slope = div (sum (products mean_x mean_y xs ys) (real 0)) sxx
    let intercept = sub mean_y (mul slope mean_x)
    let sse = sum (residuals slope intercept xs ys) (real 0)
    let sst = sum (map (λ y. square (sub y mean_y)) ys) (real 0)
    check_fit (record {
      slope_bpt = slope;
      intercept_bytes = intercept;
      r2 = if lt (real 0) sst then sub (real 1) (div sse sst) else real 0;
      residual_se = if ltb 2 n then sqrt (div sse (real (n - 2))) else real 0;
    })

  abbrev pub half : F
  half = true_div (pos 1) (pos 2)

  -- The share of the KV cache in the memory of the GPU.
  unfoldable pub kv_share : ℕ → KvScalingCell → Result F
  unfolding p50_bytes
  kv_share baseline c = do p50 ← p50_bytes c; quotient p50 (add (real baseline) p50)

  abbrev pub knee_at : KvScalingCell → F → KneePoint
  knee_at c share = record {
    total_tokens = c.total_tokens;
    kv_share = share;
    batch_size = c.batch_size;
  }

  unfoldable pub first_knee : ℕ → List KvScalingCell → Result KneePoint
  unfolding kv_share check_knee
  first_knee baseline [] = raise value_error
  first_knee baseline (c ∷ cells) =
      let rest = first_knee baseline cells in
      elim (kv_share baseline c) [
        | raise e ↦ raise e
        | ok share ↦ if le half share then check_knee (knee_at c share) else rest
      ]

  unfoldable pub find_knee : List KvScalingCell → ℤ → Result KneePoint
  unfolding first_knee sort
  find_knee cells (negsuc _) = raise value_error
  find_knee cells (pos baseline) = first_knee baseline (sort tokens_leb cells)

  -- `abs` is the absolute value of floats.
  unfoldable pub validate_against_theory : (F → F) → F → ℤ → F → Result F
  validate_against_theory abs measured theory tol = do
    raise_if (leb_ℤ theory (pos 0)) value_error
    raise_if (lt measured (real 0)) value_error
    raise_if (lt tol (real 0)) value_error
    let rel_err = div (abs (sub measured (of_int theory))) (of_int theory)
    raise_if (lt tol rel_err) value_error
    ok rel_err

  unfoldable pub check_dry_run_gate : RegressionFit → ℤ → ℕ → ℕ → Result (Unit {0})
  check_dry_run_gate r injected block min_seq_len = do
    raise_if (leb_ℤ injected (pos 0)) value_error
    raise_if (min_seq_len == 0) zero_division_error
    let lo = mul (of_int injected) (true_div (pos 999) (pos 1000))
    let hi = mul (of_int injected) (add (real 1) (true_div (pos block) (pos min_seq_len)))
    raise_if (not (le lo r.slope_bpt && le r.slope_bpt hi)) value_error
    raise_if (lt r.r2 (true_div (pos 98) (pos 100))) value_error

  pub record CostPreflight : Type 0 where
    pub campaign_id : Text
    pub model_id : Text
    pub model_revision : Text
    pub seq_lens : List ℕ
    pub batch_sizes : List ℕ
    pub n_samples : ℕ
    pub n_cells : ℕ
    pub est_wall_seconds : F
    pub usd_per_hour : Option F
    pub est_cost_usd : Option F
    pub approved : Bool
    pub out_dir : Text

  unfoldable pub build_cost_preflight :
      Text → Text → Text → List ℕ → List ℕ → ℕ → F → Option F → Text → Bool → CostPreflight
  build_cost_preflight campaign model revision seqs batches n secs rate out approved =
      let wall = mul (real (length seqs * length batches)) secs in
      record {
        campaign_id = campaign;
        model_id = model;
        model_revision = revision;
        seq_lens = seqs;
        batch_sizes = batches;
        n_samples = n;
        n_cells = length seqs * length batches;
        est_wall_seconds = wall;
        usd_per_hour = rate;
        est_cost_usd = Option.map (λ r. mul (div wall (real 3600)) r) rate;
        approved = approved;
        out_dir = out;
      }

  -- The test of `run_vllm_sweep` before any work on a GPU.
  unfoldable pub require_approval : CostPreflight → Bool → Result (Unit {0})
  require_approval p cuda_available = do
    raise_if (ltb 1 p.n_cells && not p.approved) runtime_error
    raise_if (not cuda_available) runtime_error
