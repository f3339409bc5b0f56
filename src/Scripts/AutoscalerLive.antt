-- ===== src/Scripts/AutoscalerLive.antt =====
-- scripts/autoscaler_live.py: the autoscaler on a live server. A tick reads the parsed metrics of
-- the server and two clocks, which are arguments, as are the status counts of the traffic;
-- `round_3` rounds to three decimals. `sum` adds from the left. A replica count is at least 1.
pub mod Drained
use goodputlab.Prelude.{
  ℕ, zero, suc, ◌+◌, Bool, true, false, ◌&&◌, Option, none, some, List, [], ◌∷◌, ◌++◌, map, ◌==◌,
  if◌then◌else◌, length, max,
}
use goodputlab.Bench.KvScaling.Fit.{index, quotient}
use goodputlab.Control.Autoscaler.{
  PoolTopology, AutoscalerDecision, Reason, Readings, PoolAutoscaler, tick, nonzero,
}
use goodputlab.Control.Autoscaler
use goodputlab.Control.Pid
use goodputlab.Control.Pool.{Pool}
use goodputlab.Core.Reconcile.{Parsed}
use goodputlab.Prelude.Float.{FloatOps}
use goodputlab.Prelude.Int.{ℤ, pos, negsuc, pos_part, ◌+ℤ◌, ltb_ℤ}
use goodputlab.Prelude.Result.{Result, ok, raise, ◌>>=◌}
use goodputlab.Prelude.Text.{Text, codes, starts_with}

module _ (fl : FloatOps) where
  open fl use {F, of_int, add, mul, div, true_div, eq, truncate}

  -- The values of the metrics with a prefix, summed.
  abbrev sum_prefix : Text → F → Parsed fl → F
  sum_prefix prefix acc [] = acc
  sum_prefix prefix acc ((k, v) ∷ parsed) =
      sum_prefix prefix (if starts_with prefix k then add acc v else acc) parsed

  -- `queue_signal`, of the parsed body: what waits and what runs.
  unfoldable pub queue_signal : Parsed fl → Result (ℤ × ℤ)
  queue_signal parsed = do
    waiting ← truncate (sum_prefix (codes "vllm:num_requests_waiting") (of_int (pos 0)) parsed)
    running ← truncate (sum_prefix (codes "vllm:num_requests_running") (of_int (pos 0)) parsed)
    ok (waiting, running)

  unfoldable pub build_autoscaler : F → Result (PoolAutoscaler fl)
  build_autoscaler min_dwell_s = do
    pid ←
        Pid.init fl
          (record {
            kp = true_div (pos 8) (pos 100);
            ki = true_div (pos 1) (pos 100);
            kd = of_int (pos 0);
          })
          (of_int (negsuc 0)) (of_int (pos 1))
    Autoscaler.init fl ((Pool.colocated, pid) ∷ []) (pos 1) (pos 8) (pos 1) min_dwell_s none

  pub record TickRecord : Type 0 where
    pub ts : F
    pub phase : Text
    pub queue_waiting : ℤ
    pub in_flight_running : ℤ
    pub replicas_virtual : ℕ
    pub decision_delta : ℤ
    pub decision_reason : Reason

  -- What a tick reads: the metrics, the clock of the autoscaler and the wall clock.
  pub record Scrape : Type 0 where
    pub parsed : Parsed fl
    pub now : F
    pub wall : F

  -- The variables of `run_experiment`.
  pub record Experiment : Type 0 where
    pub scaler : PoolAutoscaler fl
    pub replicas : ℕ
    pub records : List TickRecord
    pub drain_violations : ℕ
    pub flips : ℕ

  module _ (round_3 : F → F) (tick_s : F) (target_queue_depth : ℕ) where
    -- The rest of a tick, after the decision.
    unfoldable pub note :
        Text → Scrape → ℤ × ℤ → Experiment → PoolAutoscaler fl → AutoscalerDecision → Experiment
    unfolding nonzero
    note phase scrape (waiting, running) x scaler d =
        let replicas =
          if nonzero d.delta then max 1 (pos_part (pos x.replicas +ℤ d.delta)) else x.replicas in
        record {
          scaler = scaler;
          replicas = replicas;
          records =
              x.records
              ++ record {
                ts = round_3 scrape.wall;
                phase = phase;
                queue_waiting = waiting;
                in_flight_running = running;
                replicas_virtual = replicas;
                decision_delta = d.delta;
                decision_reason = d.reason;
              }
                ∷ [];
          drain_violations =
              x.drain_violations
              + (if ltb_ℤ d.delta (pos 0) && ltb_ℤ (pos 0) running then 1 else 0);
          flips = x.flips + (if nonzero d.delta then 1 else 0);
        }

    abbrev pub readings_of : ℤ × ℤ → Readings
    readings_of (waiting, running) = record {
      queue_depths = (Pool.colocated, waiting) ∷ [];
      in_flight = (Pool.colocated, running) ∷ [];
    }

    abbrev pub topology_of : Experiment → List (Pool × PoolTopology)
    topology_of x =
        (
          Pool.colocated,
          record {
            pool = Pool.colocated;
            replicas = x.replicas;
            target_queue_depth = target_queue_depth;
          },
        )
        ∷ []

    -- One turn of the loop within a phase.
    unfoldable pub observe : Text → Scrape → Experiment → Result Experiment
    unfolding queue_signal note tick
    observe phase scrape x = do
      signal ← queue_signal scrape.parsed
      (scaler, decisions) ← tick fl (readings_of signal) scrape.now tick_s (topology_of x) x.scaler
      d ← index decisions (pos 0)
      ok (note phase scrape signal x scaler d)

    unfoldable pub run_phase : Text → List Scrape → Experiment → Result Experiment
    unfolding observe
    run_phase phase [] x = ok x
    run_phase phase (scrape ∷ scrapes) x = do
      x' ← observe phase scrape x
      run_phase phase scrapes x'

    unfoldable pub run_phases : List (Text × List Scrape) → Experiment → Result Experiment
    unfolding run_phase
    run_phases [] x = ok x
    run_phases ((phase, scrapes) ∷ phases) x = do
      x' ← run_phase phase scrapes x
      run_phases phases x'

    -- `run_experiment`, up to its summary.
    unfoldable pub run_experiment : F → List (Text × List Scrape) → Result Experiment
    unfolding build_autoscaler run_phases
    run_experiment min_dwell_s phases = do
      scaler ← build_autoscaler min_dwell_s
      run_phases phases
          (record { scaler = scaler; replicas = 1; records = []; drain_violations = 0; flips = 0 })

    pub record LiveSummary : Type 0 where
      pub ticks : ℕ
      pub flips : ℕ
      pub flips_per_minute : F
      pub drain_violations : ℕ
      pub max_queue_waiting : ℤ
      pub response_status_counts : List (Text × ℕ)
      pub phases : List Text

    abbrev max_waiting : ℤ → List TickRecord → ℤ
    max_waiting acc [] = acc
    max_waiting acc (r ∷ rs) =
        max_waiting (if ltb_ℤ acc r.queue_waiting then r.queue_waiting else acc) rs

    abbrev most_waiting : List TickRecord → ℤ
    most_waiting [] = pos 0
    most_waiting (r ∷ rs) = max_waiting r.queue_waiting rs

    unfoldable pub summary_of : List Text → List (Text × ℕ) → Experiment → Result LiveSummary
    summary_of names status_counts x = do
      let wall_s = mul (of_int (pos (length x.records))) tick_s
      let rate = quotient fl (of_int (pos x.flips)) (div wall_s (of_int (pos 60)))
      flips_per_minute ←
          if eq wall_s (of_int (pos 0)) then ok (of_int (pos 0)) else (rate >>= λ r. ok (round_3 r))
      ok (record {
        ticks = length x.records;
        flips = x.flips;
        flips_per_minute = flips_per_minute;
        drain_violations = x.drain_violations;
        max_queue_waiting = most_waiting x.records;
        response_status_counts = status_counts;
        phases = names;
      })

    -- The exit code of `main`, at an endpoint that is set.
    unfoldable pub main : F → List (Text × List Scrape) → List (Text × ℕ) → Result ℕ
    unfolding run_experiment summary_of
    main min_dwell_s phases status_counts = do
      x ← run_experiment min_dwell_s phases
      s ← summary_of (map (λ p. p.0) phases) status_counts x
      ok (if s.drain_violations == 0 then 0 else 1)
