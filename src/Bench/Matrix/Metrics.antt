-- ===== src/Bench/Matrix/Metrics.antt =====
-- bench/cell_runner.py: what a cell's measurement makes of its telemetry. `statistics.mean` is a
-- parameter, of at least one value. A difference of two time stamps is exact, and becomes a float
-- when it is divided.
pub mod Successes
use goodputlab.Prelude.{
  ℕ, ◌+◌, ◌-◌, Bool, true, false, Option, none, some, List, [], ◌∷◌, ◌++◌, ◌==◌, if◌then◌else◌,
  length, min, is_yes,
}
use goodputlab.Bench.KvScaling.Fit.{index}
use goodputlab.Bench.Matrix.Cells.{Topology, CellSpec}
use goodputlab.Bench.Matrix.Sweep.{ThermalReading, Measurement}
use goodputlab.Core.Trace.{RequestTelemetry}
use goodputlab.Prelude.Float.{FloatOps}
use goodputlab.Prelude.Int.{ℤ, pos, negsuc, sub_ℕ}
use goodputlab.Prelude.Result.{Result, ok, raise, ◌>>=◌}
use goodputlab.Prelude.Sort.{filter, sort}
use goodputlab.Prelude.Text.{Text, codes, text_discrete}

-- `min(f + 1, n - 1)`, of a positive `n`, and whether it is `f`.
abbrev pub ceiling : ℕ → ℤ → ℤ
ceiling n (pos f) = pos (min (f + 1) (n - 1))
ceiling n (negsuc f) = sub_ℕ 0 f

abbrev pub is_same : ℤ → ℤ → Bool
is_same (pos a) (pos b) = a == b
is_same (negsuc a) (negsuc b) = a == b
is_same _ _ = false

abbrev is_tier_topology : Topology → Bool
is_tier_topology Topology.disagg_tier = true
is_tier_topology _ = false

module _ (fl : FloatOps) where
  open fl use {F, of_int, add, sub, mul, div, true_div, le, truncate}

  -- The values around the rank `k`.
  unfoldable pub between : List F → F → ℤ → Result F
  between s k f = do
    a ← index s f
    b ← index s (ceiling (length s) f)
    ok (if is_same f (ceiling (length s) f) then a else add a (mul (sub b a) (sub k (of_int f))))

  -- `_percentile`
  unfoldable pub percentile : List F → F → Result F
  unfolding between sort
  percentile [] pct = ok (of_int (pos 0))
  percentile (v ∷ []) pct = ok v
  percentile (v ∷ w ∷ vs) pct = do
    let k = mul (of_int (pos (length (w ∷ vs)))) pct
    f ← truncate k
    between (sort le (v ∷ w ∷ vs)) k f

  pub record CellMetrics : Type 0 where
    pub mean_ttft_ms : F
    pub p95_ttft_ms : F
    pub mean_itl_ms : F
    pub success_rate : F

  unfoldable pub is_success : RequestTelemetry fl → Bool
  is_success t = t.status_code == 200

  unfoldable pub successes : List (RequestTelemetry fl) → List (RequestTelemetry fl)
  unfolding filter is_success
  successes = filter is_success

  abbrev pub with_ttft : Option F → List F → List F
  with_ttft none values = values
  with_ttft (some v) values = v ∷ values

  unfoldable pub ttft_values : List (RequestTelemetry fl) → List F
  ttft_values [] = []
  ttft_values (t ∷ ts) = with_ttft t.ttft_ms (ttft_values ts)

  -- The milliseconds between the tokens of one request.
  unfoldable pub gaps : List ℕ → List F
  gaps [] = []
  gaps (a ∷ []) = []
  gaps (a ∷ b ∷ ts) = div (of_int (sub_ℕ b a)) (of_int (pos 1000000)) ∷ gaps (b ∷ ts)

  unfoldable pub itl_values : List (RequestTelemetry fl) → List F
  unfolding gaps
  itl_values [] = []
  itl_values (t ∷ ts) = gaps t.per_token_ts_ns ++ itl_values ts

  -- `len(part) / len(whole)`, and 0.0 of nothing.
  abbrev pub share : List (RequestTelemetry fl) → List (RequestTelemetry fl) → F
  share part [] = of_int (pos 0)
  share part (t ∷ ts) = true_div (pos (length part)) (pos (length (t ∷ ts)))

  unfoldable pub is_tier : RequestTelemetry fl → Bool
  unfolding text_discrete
  is_tier t = elim t.routed_pool [
    | none ↦ false
    | some pool ↦ is_yes (text_discrete pool (codes "tier"))
  ]

  -- `_cache_hit_rate`
  unfoldable pub cache_hit_rate : CellSpec → List (RequestTelemetry fl) → F
  unfolding filter is_tier
  cache_hit_rate spec ts =
      if is_tier_topology spec.topology then share (filter is_tier ts) ts else of_int (pos 0)

  module _ (mean : List F → F) where
    abbrev pub mean_or_zero : List F → F
    mean_or_zero [] = of_int (pos 0)
    mean_or_zero (v ∷ vs) = mean (v ∷ vs)

    -- The latencies are those of the successes `done`; `ts` is for the rate.
    unfoldable pub metrics_of :
        List (RequestTelemetry fl) → List (RequestTelemetry fl) → Result CellMetrics
    unfolding percentile ttft_values itl_values
    metrics_of done ts = do
      p95 ← percentile (ttft_values done) (true_div (pos 95) (pos 100))
      ok (record {
        mean_ttft_ms = mean_or_zero (ttft_values done);
        p95_ttft_ms = p95;
        mean_itl_ms = mean_or_zero (itl_values done);
        success_rate = share done ts;
      })

    unfoldable pub aggregate_metrics : List (RequestTelemetry fl) → Result CellMetrics
    unfolding metrics_of successes
    aggregate_metrics ts = metrics_of (successes ts) ts

    -- The part of `_execute` between the replay and the result.
    unfoldable pub measurement_of :
        CellSpec → List (RequestTelemetry fl) → ThermalReading fl → F → F → Result (Measurement fl)
    unfolding aggregate_metrics cache_hit_rate
    measurement_of spec ts thermal started duration = do
      metrics ← aggregate_metrics ts
      ok (record {
        mean_ttft_ms = metrics.mean_ttft_ms;
        p95_ttft_ms = metrics.p95_ttft_ms;
        mean_itl_ms = metrics.mean_itl_ms;
        success_rate = metrics.success_rate;
        cache_hit_rate = cache_hit_rate spec ts;
        thermal = thermal;
        started_at = started;
        duration_s = duration;
      })
