-- ===== src/Tests/Traces.antt =====
-- The validator of telemetry on one request, and the metrics of a cell with a failed one.
use goodputlab.Prelude.{◌*◌, none, some, List, [], ◌∷◌, length}
use goodputlab.Core.Trace.{RequestTelemetry}
use goodputlab.Prelude.Int.{ℤ, pos, ◌+ℤ◌}
use goodputlab.Prelude.Text.{codes}
use goodputlab.Tests.Floats.{milli}

abbrev telemetry : RequestTelemetry milli
telemetry = record {
  request_id = codes "r";
  prompt_tokens = 12;
  enqueue_ts_ns = 5;
  ttft_ms = some (pos 3000);
  per_token_ts_ns = 10 ∷ 12 ∷ 11 ∷ [];
  completion_ts_ns = some 13;
  status_code = 200;
  error = none;
  routed_pool = none;
}

abbrev failed : RequestTelemetry milli
failed = record telemetry { ttft_ms = some (pos 9000); status_code = 503 }

abbrev sum_of : List ℤ → ℤ
sum_of [] = pos 0
sum_of (v ∷ vs) = v +ℤ sum_of vs

abbrev mean_of : List ℤ → ℤ
mean_of vs = milli.true_div (sum_of vs) (pos (1000 * length vs))
