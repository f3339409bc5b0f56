-- ===== src/Core/Reconcile.antt =====
-- core/metrics.py and core/reconcile.py: the sums over the server's metrics, and the gate that
-- compares them with the client's telemetry. The parser of the metrics text is prometheus_client's,
-- so the parsed dictionary is an argument.
use goodputlab.Prelude.{
  is_yes, ℕ, ◌+◌, ◌≡◌, refl, Bool, not, ◌&&◌, ◌||◌, none, some, List, [], ◌∷◌, ◌++◌, ◌==◌,
  if◌then◌else◌, length, arith,
}
use goodputlab.Core.Trace.{RequestTelemetry}
use goodputlab.Prelude.Float.{FloatOps}
use goodputlab.Prelude.Int.{ℤ, pos, ltb_ℤ}
use goodputlab.Prelude.Result.{Result, ok, value_error, raise_if, ◌>>=◌, ◌>>◌}
use goodputlab.Prelude.Sort.{filter}
use goodputlab.Prelude.Text.{Text, codes, text_discrete, starts_with}

-- A key of the metric: its name alone, or with labels.
unfoldable pub matches : Text → Text → Bool
unfolding text_discrete
matches name key = is_yes (text_discrete key name) || starts_with (name ++ codes "{") key

module _ (fl : FloatOps) where
  open fl use {F, of_int, add, sub, mul, div, lt, le, eq, truncate}

  abbrev pub Parsed : Type 0
  Parsed = List (Text × F)

  abbrev pub zero_float : F
  zero_float = of_int (pos 0)

  -- `_sum_matching`, on top of `total`.
  unfoldable pub sum_matching_from : F → Text → Parsed → F
  unfolding matches
  sum_matching_from total name [] = total
  sum_matching_from total name ((key, value) ∷ parsed) =
      sum_matching_from (if matches name key then add total value else total) name parsed

  unfoldable pub sum_matching : Parsed → Text → F
  unfolding sum_matching_from
  sum_matching parsed name = sum_matching_from zero_float name parsed

  unfoldable pub vllm_token_totals : Parsed → F × F
  unfolding sum_matching
  vllm_token_totals parsed = (
    sum_matching parsed (codes "vllm:prompt_tokens_total"),
    sum_matching parsed (codes "vllm:generation_tokens_total"),
  )

  unfoldable pub vllm_request_counts : Parsed → F × F
  unfolding sum_matching
  vllm_request_counts parsed =
      let latency = sum_matching parsed (codes "vllm:e2e_request_latency_seconds_count") in
      let first = sum_matching parsed (codes "vllm:time_to_first_token_seconds_count") in
      let total = if eq latency zero_float then first else latency in
      let success = sum_matching parsed (codes "vllm:request_success_total") in
      ((if eq success zero_float && lt zero_float total then total else success), total)

  -- A sum over a count, and 0.0 where there is no count.
  unfoldable pub mean_of : Parsed → Text → Text → F
  unfolding sum_matching
  mean_of parsed sum_name count_name =
      let c = sum_matching parsed count_name in
      if le c zero_float then zero_float else div (sum_matching parsed sum_name) c

  unfoldable pub vllm_mean_latency_s : Parsed → F
  unfolding mean_of
  vllm_mean_latency_s parsed =
      mean_of parsed (codes "vllm:e2e_request_latency_seconds_sum")
        (codes "vllm:e2e_request_latency_seconds_count")

  unfoldable pub vllm_mean_ttft_s : Parsed → F
  unfolding mean_of
  vllm_mean_ttft_s parsed =
      mean_of parsed (codes "vllm:time_to_first_token_seconds_sum")
        (codes "vllm:time_to_first_token_seconds_count")

  pub record ReconciliationReport : Type 0 where
    pub success_count_delta_pct : F
    pub prompt_tokens_delta_pct : F
    pub completion_tokens_delta_pct : F
    pub mean_ttft_delta_pct : F
    pub window_s : F
    pub n_client_requests : ℕ
    pub n_server_requests : ℤ

  unfoldable pub gate_passes : ReconciliationReport → F → Bool
  gate_passes r threshold =
      le r.success_count_delta_pct threshold
      && (le r.prompt_tokens_delta_pct threshold
          && (le r.completion_tokens_delta_pct threshold && le r.mean_ttft_delta_pct threshold))

  -- `abs(x)`, but for the sign of a zero.
  abbrev pub abs : F → F
  abs x = if lt x zero_float then sub zero_float x else x

  -- `max(x, 1.0)`
  abbrev pub at_least_one : F → F
  at_least_one x = if lt x (of_int (pos 1)) then of_int (pos 1) else x

  unfoldable pub delta_pct : F → F → F
  delta_pct client server =
      mul (div (abs (sub client server)) (at_least_one (abs server))) (of_int (pos 100))

  unfoldable pub client_success : List (RequestTelemetry fl) → ℕ
  client_success [] = 0
  client_success (r ∷ rs) = (if r.status_code == 200 then 1 else 0) + client_success rs

  unfoldable pub client_prompt_tokens : List (RequestTelemetry fl) → ℕ
  client_prompt_tokens [] = 0
  client_prompt_tokens (r ∷ rs) = r.prompt_tokens + client_prompt_tokens rs

  unfoldable pub client_completion_tokens : List (RequestTelemetry fl) → ℕ
  client_completion_tokens [] = 0
  client_completion_tokens (r ∷ rs) = length r.per_token_ts_ns + client_completion_tokens rs

  unfoldable pub ttft_values : List (RequestTelemetry fl) → List F
  ttft_values [] = []
  ttft_values (r ∷ rs) = elim r.ttft_ms [ none ↦ ttft_values rs | some v ↦ v ∷ ttft_values rs ]

  unfoldable pub sum_from : F → List F → F
  sum_from acc [] = acc
  sum_from acc (v ∷ vs) = sum_from (add acc v) vs

  -- `_mean_ttft_ms`
  unfoldable pub mean_values : List F → F
  unfolding sum_from
  mean_values [] = zero_float
  mean_values (v ∷ vs) = div (sum_from zero_float (v ∷ vs)) (of_int (pos (length (v ∷ vs))))

  -- `reconcile`, after the parser.
  unfoldable pub reconcile : List (RequestTelemetry fl) → Parsed → F → Result ReconciliationReport
  unfolding client_success client_prompt_tokens client_completion_tokens ttft_values mean_values
      vllm_token_totals vllm_request_counts vllm_mean_ttft_s delta_pct
  reconcile client parsed window_s = do
    let (server_prompt, server_completion) = vllm_token_totals parsed
    let (server_success, server_total) = vllm_request_counts parsed
    let server_ttft_ms = mul (vllm_mean_ttft_s parsed) (of_int (pos 1000))
    n_server ← truncate server_total
    raise_if (not (lt zero_float window_s)) value_error
    raise_if (ltb_ℤ n_server (pos 0)) value_error
    ok (record {
      success_count_delta_pct = delta_pct (of_int (pos (client_success client))) server_success;
      prompt_tokens_delta_pct =
          delta_pct (of_int (pos (client_prompt_tokens client))) server_prompt;
      completion_tokens_delta_pct =
          delta_pct (of_int (pos (client_completion_tokens client))) server_completion;
      mean_ttft_delta_pct = delta_pct (mean_values (ttft_values client)) server_ttft_ms;
      window_s = window_s;
      n_client_requests = length client;
      n_server_requests = n_server;
    })

  sum_matching_from-filter :
      (name : Text) (parsed : Parsed) (total : F)
      → sum_matching_from total name (filter (λ e. matches name e.0) parsed)
        ≡ sum_matching_from total name parsed
  unfolding sum_matching_from filter
  sum_matching_from-filter name [] total = refl
  sum_matching_from-filter name ((key, value) ∷ parsed) total = ground (
    arith,
    sum_matching_from-filter name parsed (add total value),
    sum_matching_from-filter name parsed total,
  )

  -- Only the keys of a metric count towards its sum: its own name, or its name before a brace.
  pub sum_matching-filter :
      (parsed : Parsed) (name : Text)
      → sum_matching (filter (λ e. matches name e.0) parsed) name ≡ sum_matching parsed name
  unfolding sum_matching
  sum_matching-filter parsed name = sum_matching_from-filter name parsed zero_float
