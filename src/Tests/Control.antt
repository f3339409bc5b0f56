-- ===== src/Tests/Control.antt =====
-- The control plane on small inputs.
use goodputlab.Prelude.{◌≡◌, refl, false, none, some, List, [], ◌∷◌, All, arith, map}
use goodputlab.Prelude.Dict
use goodputlab.Prelude.Int.{ℤ, pos, negsuc, ◌+ℤ◌, ◌-ℤ◌, ◌*ℤ◌}
use goodputlab.Tests.Floats.{milli, milli_laws}
use goodputlab.Control.Pool.{Pool, pool_discrete}
use goodputlab.Control.Pid.{PidGains, PidController, unclamped, update}
use goodputlab.Control.Pid.Clamp.{IsClamped, Keeps, run, run-IsClamped}
use goodputlab.Control.Autoscaler.{
  PoolTopology, AutoscalerDecision, Readings, PoolAutoscaler, get_or_zero, raw_delta, clamp_delta,
  nonzero, flipped_within, settle, drive, visit, tick, hold, queue_high, drain_wait,
}
use goodputlab.Control.Autoscaler
use goodputlab.Control.Pid
use goodputlab.Prelude.Result.{Result, ok, raise}
use goodputlab.Prelude.Text.{Text, codes}
use goodputlab.Scripts.AutoscalerLive.{
  queue_signal, build_autoscaler, Scrape, Experiment, note, observe, run_phase, run_phases,
  run_experiment,
}
use goodputlab.Scripts.AutoscalerLive.Drained.{IsSound, run_experiment-IsSound}
use goodputlab.Control.Autoscaler.Decisions.{AllSafe, HasBounds, tick-AllSafe}
use goodputlab.Control.Autoscaler.Dwell.{
  TickInput, flips, flip_times, IsSpaced, flip_times-IsSpaced,
}

program : Unit {0}
unfolding ◌+ℤ◌ ◌-ℤ◌ ◌*ℤ◌ update run
program = tt

abbrev gains : PidGains milli
gains = record { kp = pos 1000; ki = pos 100; kd = pos 0 }

abbrev controller : PidController milli
controller = record {
  gains = gains;
  out_min = negsuc 9999;
  out_max = pos 10000;
  integral = pos 0;
  prev_error = none;
}

abbrev saturated : PidController milli
saturated = record controller { prev_error = some (pos 40000) }

-- An error of 4 in the linear range, then one of 40 that saturates.
abbrev steps : List (ℤ × ℤ)
steps = (pos 4000, pos 1000) ∷ (pos 40000, pos 1000) ∷ []

run-IsClamped_example :
    All (IsClamped milli controller) (pos 4400 ∷ pos 10000 ∷ [])
    × Keeps milli controller
        (record controller { integral = pos 4000; prev_error = some (pos 40000) })
unfolding program
run-IsClamped_example = run-IsClamped milli milli_laws steps controller refl (refl, refl) refl

-- Two pools: one is deep, and the other has nothing to do but still has a request in flight.
abbrev topology : List (Pool × PoolTopology)
topology =
    (Pool.decode, record { pool = Pool.decode; replicas = 2; target_queue_depth = 4 })
    ∷ (Pool.prefill, record { pool = Pool.prefill; replicas = 2; target_queue_depth = 9 })
    ∷ []

abbrev readings : Readings
readings = record {
  queue_depths = (Pool.decode, pos 30) ∷ [];
  in_flight = (Pool.prefill, pos 1) ∷ [];
}

abbrev scaler : PoolAutoscaler milli
scaler = record {
  controllers = (Pool.decode, controller) ∷ (Pool.prefill, controller) ∷ [];
  min_replicas = pos 1;
  max_replicas = pos 3;
  step_size = pos 2;
  min_dwell_s = pos 60000;
  metrics = some [];
  last_flip_ts = [];
}

ticking : Unit {0}
unfolding program tick visit drive raw_delta clamp_delta settle Dict.lookup Dict.set pool_discrete
    get_or_zero
ticking = tt

abbrev decisions : List AutoscalerDecision
decisions =
    record { pool = Pool.decode; delta = pos 1; reason = queue_high; drained = false }
    ∷ hold milli Pool.prefill drain_wait
    ∷ []

abbrev scaled : PoolAutoscaler milli
scaled = record scaler {
  controllers =
      (Pool.decode, record controller { prev_error = some (pos 26000) })
      ∷ (
        Pool.prefill,
        record controller { integral = negsuc 8999; prev_error = some (negsuc 8999) },
      )
      ∷ [];
  last_flip_ts = (Pool.decode, pos 1000) ∷ [];
}

tick-AllSafe_example :
    AllSafe (pos 1) (pos 3) readings topology decisions × HasBounds milli (pos 1) (pos 3) scaled
unfolding ticking
tick-AllSafe_example =
    tick-AllSafe milli readings (pos 1000) (pos 1000) topology scaler (omega arith) refl

topology-Distinct : Dict.Distinct topology
topology-Distinct = ((λ e. ground arith, tt), (tt, tt))

-- The second tick comes before the minimum dwell is over.
abbrev input : ℤ → TickInput milli
input now = record { readings = readings; now = now; dt = pos 1000; topology = topology }

abbrev inputs : List (TickInput milli)
inputs = input (pos 1000) ∷ input (pos 30000) ∷ input (pos 61000) ∷ []

flip_times-IsSpaced_example : IsSpaced milli (pos 60000) none (pos 1000 ∷ pos 61000 ∷ [])
unfolding ticking flip_times flips nonzero flipped_within
flip_times-IsSpaced_example =
    flip_times-IsSpaced milli Pool.decode inputs scaler refl refl
      (topology-Distinct, (topology-Distinct, (topology-Distinct, tt))) refl

-- A live experiment: a deep queue, then nothing waits but a request is still in flight.
abbrev scrape : ℤ → ℤ → ℤ → Scrape milli
scrape now waiting running = record {
  parsed =
      (codes "vllm:num_requests_waiting", waiting)
      ∷ (codes "vllm:num_requests_running", running)
      ∷ [];
  now = now;
  wall = now;
}

abbrev phases : List (Text × List (Scrape milli))
phases =
    (codes "burst", scrape (pos 1000) (pos 30000) (pos 2000) ∷ [])
    ∷ (
      codes "calm",
      scrape (pos 20000) (pos 0) (pos 1000)
          ∷ scrape (pos 22000) (pos 0) (pos 1000)
          ∷ scrape (pos 24000) (pos 0) (pos 1000)
          ∷ scrape (pos 26000) (pos 0) (pos 0)
          ∷ [],
    )
    ∷ []

live : Unit {0}
unfolding ticking run_experiment run_phases run_phase observe queue_signal note build_autoscaler
    Autoscaler.init Pid.init
live = tt

abbrev or_start : Result (Experiment milli) → Experiment milli
or_start (ok x) = x
or_start (raise e) = record {
  scaler = scaler;
  replicas = 1;
  records = [];
  drain_violations = 0;
  flips = 0;
}

-- One replica is added, and taken away again once nothing is in flight.
abbrev experiment : Experiment milli
unfolding live
experiment = or_start (run_experiment milli (λ a. a) (pos 2000) 4 (pos 10000) phases)

deltas :
    map (λ r. r.decision_delta) experiment.records ≡ pos 1 ∷ pos 0 ∷ pos 0 ∷ pos 0 ∷ negsuc 0 ∷ []
unfolding live
deltas = refl

run_experiment-IsSound_example : IsSound milli experiment
unfolding live
run_experiment-IsSound_example =
    run_experiment-IsSound milli (λ a. a) (pos 2000) 4 (pos 10000) phases refl
