-- ===== src/Bench/Orchestrator.antt =====
-- bench/orchestrator.py: the dry run of a trace through the router and the client. What the mock
-- server answers, and the order in which the event loop takes the tasks, are those of a run of
-- the client; `statistics.mean` is a parameter, of at least one value.
pub mod Routing
use goodputlab.Prelude.{
  ℕ, Bool, true, false, not, ◌&&◌, ◌||◌, Option, none, some, List, [], ◌∷◌, ◌++◌, if◌then◌else◌,
  length, max,
}
use goodputlab.Bench.Matrix.Cells.{Topology}
use goodputlab.Bench.Matrix.Metrics.{
  percentile, successes, ttft_values, itl_values, mean_or_zero, share,
}
use goodputlab.Control.Pool.{value}
use goodputlab.Control.Router.{Router, PoolDecision, route}
use goodputlab.Core.Trace.{RequestSpec, RequestTelemetry, Trace}
use goodputlab.Prelude.Float.{FloatOps}
use goodputlab.Prelude.Int.{pos}
use goodputlab.Prelude.Result.{Result, ok, raise, value_error, raise_if, ◌>>=◌, ◌>>◌}
use goodputlab.Prelude.Sort.{filter}
use goodputlab.Prelude.Text.{Text, codes}

-- The name that `routed_pool_for` makes of a decision.
abbrev pub pool_name : PoolDecision → Text
pool_name d = if d.admitted then value d.pool else codes "colocated"

module _ (fl : FloatOps) where
  open fl use {F, of_int, true_div, le}

  pub record CampaignReport : Type 0 where
    pub topology : Topology
    pub n_requests : ℕ
    pub success_rate : F
    pub mean_ttft_ms : F
    pub p95_ttft_ms : F
    pub mean_itl_ms : F
    pub cache_hit_rate : F
    pub reconcile_passes : Bool
    pub notes : List Text

  abbrev is_share : F → Bool
  is_share v = le (of_int (pos 0)) v && le v (of_int (pos 1))

  -- The validation of `CampaignReport`.
  unfoldable pub check_report : CampaignReport → Result CampaignReport
  check_report r = do
    raise_if (not (is_share r.success_rate && is_share r.cache_hit_rate)) value_error
    raise_if (not (le (of_int (pos 0)) r.mean_ttft_ms)) value_error
    raise_if (not (le (of_int (pos 0)) r.p95_ttft_ms && le (of_int (pos 0)) r.mean_itl_ms))
        value_error
    ok r

  abbrev pub is_routed : RequestTelemetry fl → Bool
  is_routed t = elim t.routed_pool [ none ↦ false | some pool ↦ true ]

  -- `routed_pool_for` within `run_topology`.
  unfoldable pub routed_pool_for : RequestSpec → Router fl → Router fl × Result (Option Text)
  unfolding route
  routed_pool_for spec r = let (next, d) = route fl r spec in (next, ok (some (pool_name d)))

  pub record Summary : Type 0 where
    pub n_requests : ℕ
    pub success_rate : F
    pub mean_ttft_ms : F
    pub p95_ttft_ms : F
    pub mean_itl_ms : F
    pub cache_hit_rate : F

  module _ (mean : List F → F) where
    -- The rate of hits: the requests with a pool over their own number, or over 1.
    unfoldable pub hit_rate : List (RequestTelemetry fl) → F
    unfolding filter
    hit_rate ts =
        let routed = length (filter is_routed ts) in true_div (pos routed) (pos (max routed 1))

    -- `_summary`
    unfoldable pub summary : List (RequestTelemetry fl) → Result Summary
    unfolding percentile successes ttft_values itl_values hit_rate
    summary ts = do
      let done = successes fl ts
      p95 ← percentile fl (ttft_values fl done) (true_div (pos 95) (pos 100))
      ok (record {
        n_requests = length ts;
        success_rate = share fl done ts;
        mean_ttft_ms = mean_or_zero fl mean (ttft_values fl done);
        p95_ttft_ms = p95;
        mean_itl_ms = mean_or_zero fl mean (itl_values fl done);
        cache_hit_rate = hit_rate ts;
      })

    -- The part of `run_topology` that follows the replay.
    unfoldable pub report_of : Topology → Text → List (RequestTelemetry fl) → Result CampaignReport
    unfolding summary check_report
    report_of topology label ts = do
      s ← summary ts
      check_report (record {
        topology = topology;
        n_requests = s.n_requests;
        success_rate = s.success_rate;
        mean_ttft_ms = s.mean_ttft_ms;
        p95_ttft_ms = s.p95_ttft_ms;
        mean_itl_ms = s.mean_itl_ms;
        cache_hit_rate = s.cache_hit_rate;
        reconcile_passes = le (true_div (pos 99) (pos 100)) s.success_rate;
        notes = codes "[DRY-RUN]" ∷ (codes "mock_vllm_label=" ++ label) ∷ [];
      })

    -- `run_campaign`, over what the replay of each topology's trace leaves.
    unfoldable pub run_campaign :
        (Topology → Trace fl → Result (List (RequestTelemetry fl)))
        → Text
        → List (Topology × Trace fl)
        → Result (List CampaignReport)
    unfolding report_of
    run_campaign replay label [] = ok []
    run_campaign replay label ((topology, trace) ∷ traces) = do
      telemetries ← replay topology trace
      report ← report_of topology label telemetries
      reports ← run_campaign replay label traces
      ok (report ∷ reports)
