-- ===== src/Bench/Matrix/Metrics/Successes.antt =====
-- Which requests the metrics of a cell are about.
use goodputlab.Prelude.{◌≡◌, ◌≢◌, List, [], ◌∷◌}
use goodputlab.Bench.Matrix.Metrics.{
  CellMetrics, share, percentile, ttft_values, itl_values, mean_or_zero,
}
use goodputlab.Core.Trace.{RequestTelemetry}
use goodputlab.Prelude.Float.{FloatOps}
use goodputlab.Prelude.Int.{pos}
use goodputlab.Prelude.Result.{Result, ok, raise}

module _ (fl : FloatOps) where
  -- `done` has the requests of a list whose status is 200, in their order, and no others.
  pub data Succeeded : List (RequestTelemetry fl) → List (RequestTelemetry fl) → Type 0 where
    none_left : Succeeded [] []
    succeeds :
        (t : RequestTelemetry fl) {ts done : List (RequestTelemetry fl)}
        → t.status_code ≡ 200
        → Succeeded ts done
        → Succeeded (t ∷ ts) (t ∷ done)
    fails :
        (t : RequestTelemetry fl) {ts done : List (RequestTelemetry fl)}
        → t.status_code ≢ 200
        → Succeeded ts done
        → Succeeded (t ∷ ts) done

  module _ (mean : List fl.F → fl.F) (ts done : List (RequestTelemetry fl)) where
    -- The metrics of a cell, from its requests and those of them that succeeded. The percentile is
    -- the only part that may raise.
    abbrev pub IsOf : Result (CellMetrics fl) → Type 0
    IsOf (raise e) = percentile fl (ttft_values fl done) (fl.true_div (pos 95) (pos 100)) ≡ raise e
    IsOf (ok m) =
        (m.mean_ttft_ms ≡ mean_or_zero fl mean (ttft_values fl done))
        × (percentile fl (ttft_values fl done) (fl.true_div (pos 95) (pos 100)) ≡ ok m.p95_ttft_ms)
        × (m.mean_itl_ms ≡ mean_or_zero fl mean (itl_values fl done))
        × (m.success_rate ≡ share fl done ts)
