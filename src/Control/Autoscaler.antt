-- ===== src/Control/Autoscaler.antt =====
-- control/autoscaler.py: one PID per pool, integer steps within bounds, drain and minimum dwell.
-- `tick` walks over the topology in the order of its dictionary, and each pool's visit is a
-- function of its own. The clock is read once in a tick, so its reading is an argument. Each pool
-- is taken to have a controller object of its own.
pub mod Decisions
pub mod Flips
pub mod Dwell
use goodputlab.Prelude.{
  ℕ, ◌≡◌, refl, Bool, true, false, not, ◌&&◌, ◌||◌, Option, none, some, List, [], ◌∷◌,
  if◌then◌else◌,
}
use goodputlab.Prelude.Dict
use goodputlab.Prelude.Float.{FloatOps}
use goodputlab.Prelude.Int.{ℤ, pos, negsuc, ◌+ℤ◌, ◌-ℤ◌, ltb_ℤ}
use goodputlab.Prelude.Result.{Result, ok, raise, value_error, raise_if, ◌>>=◌, ◌>>◌}
use goodputlab.Control.Pid.{PidController, update}
use goodputlab.Control.Pool.{Pool, pool_discrete}
use goodputlab.Obs.{MetricsRegistry, inc_controller_thrash}

-- THRASH_WINDOW_S
abbrev pub thrash_window_s : ℤ
thrash_window_s = pos 240

pub record PoolTopology : Type 0 where
  pub pool : Pool
  pub replicas : ℕ
  pub target_queue_depth : ℕ

pub data Reason : Type 0 where
  no_controller drain_wait dwell_wait queue_high queue_low stable : Reason

pub record AutoscalerDecision : Type 0 where
  pub pool : Pool
  pub delta : ℤ
  pub reason : Reason
  pub drained : Bool

-- The arguments of `tick` that are dictionaries read by key.
pub record Readings : Type 0 where
  pub queue_depths : List (Pool × ℤ)
  pub in_flight : List (Pool × ℤ)

-- `d.get(pool, 0)`
unfoldable pub get_or_zero : Pool → List (Pool × ℤ) → ℤ
unfolding Dict.lookup pool_discrete
get_or_zero p d = elim (Dict.lookup pool_discrete p d) [ none ↦ pos 0 | some n ↦ n ]

-- A delta is not zero.
unfoldable pub nonzero : ℤ → Bool
nonzero d = ltb_ℤ d (pos 0) || ltb_ℤ (pos 0) d

module _ (fl : FloatOps) where
  open fl use {F, of_int, sub, mul, div, lt, le, round}

  pub record PoolAutoscaler : Type 0 where
    pub controllers : List (Pool × PidController fl)
    pub min_replicas : ℤ
    pub max_replicas : ℤ
    pub step_size : ℤ
    pub min_dwell_s : F
    pub metrics : Option (MetricsRegistry fl)
    pub last_flip_ts : List (Pool × F)

  -- `PoolAutoscaler.__init__`
  unfoldable pub init :
      List (Pool × PidController fl)
      → ℤ
      → ℤ
      → ℤ
      → F
      → Option (MetricsRegistry fl)
      → Result PoolAutoscaler
  init controllers lo hi step dwell metrics = do
    raise_if (ltb_ℤ lo (pos 0)) value_error
    raise_if (ltb_ℤ hi lo) value_error
    raise_if (ltb_ℤ step (pos 1)) value_error
    raise_if (lt dwell (of_int (pos 0))) value_error
    ok (record {
      controllers = controllers;
      min_replicas = lo;
      max_replicas = hi;
      step_size = step;
      min_dwell_s = dwell;
      metrics = metrics;
      last_flip_ts = [];
    })

  -- The PID output as a signed step.
  unfoldable pub raw_delta : PoolAutoscaler → PidController fl → F → Result ℤ
  raw_delta a c raw =
      let span = sub c.out_max c.out_min in
      let normalized = sub (mul (div (sub raw c.out_min) span) (of_int (pos 2))) (of_int (pos 1)) in
      if le span (of_int (pos 0)) then ok (pos 0) else round (mul normalized (of_int a.step_size))

  -- Floor and ceiling. Both tests look at the number of replicas before the correction.
  unfoldable pub clamp_delta : PoolAutoscaler → ℤ → ℤ → ℤ
  clamp_delta a replicas delta =
      let would_be = replicas +ℤ delta in
      if ltb_ℤ would_be a.min_replicas
      then a.min_replicas -ℤ replicas
      else if ltb_ℤ a.max_replicas would_be
      then a.max_replicas -ℤ replicas
      else delta

  -- The last flip of the pool lies less than `window` before `now`.
  unfoldable pub flipped_within : PoolAutoscaler → Pool → F → F → Bool
  unfolding Dict.lookup pool_discrete
  flipped_within a p now window = elim (Dict.lookup pool_discrete p a.last_flip_ts) [
    | none ↦ false
    | some last ↦ lt (sub now last) window
  ]

  unfoldable pub note_thrash : PoolAutoscaler → Pool → F → Option (MetricsRegistry fl)
  unfolding flipped_within inc_controller_thrash
  note_thrash a p now = elim a.metrics [
    | none ↦ none
    | some m ↦
        some (
          if flipped_within a p now (of_int thrash_window_s) then inc_controller_thrash fl m else m)
  ]

  unfoldable pub reason_of : ℤ → Reason
  reason_of delta =
      if ltb_ℤ (pos 0) delta then queue_high else if ltb_ℤ delta (pos 0) then queue_low else stable

  abbrev pub hold : Pool → Reason → AutoscalerDecision
  hold p r = record { pool = p; delta = pos 0; reason = r; drained = false }

  -- From the clamped delta to the decision: the drain gate, the dwell gate, and the flip.
  unfoldable pub settle :
      PoolAutoscaler → Readings → F → Pool → ℤ → PoolAutoscaler × AutoscalerDecision
  unfolding nonzero flipped_within note_thrash reason_of get_or_zero Dict.set
  settle a r now p delta =
      if ltb_ℤ delta (pos 0) && ltb_ℤ (pos 0) (get_or_zero p r.in_flight)
      then (a, hold p drain_wait)
      else if nonzero delta
          && (lt (of_int (pos 0)) a.min_dwell_s && flipped_within a p now a.min_dwell_s)
      then (a, hold p dwell_wait)
      else (
        (if nonzero delta
            then record a {
              metrics = note_thrash a p now;
              last_flip_ts = Dict.set pool_discrete p now a.last_flip_ts;
            }
            else a),
        record { pool = p; delta = delta; reason = reason_of delta; drained = ltb_ℤ delta (pos 0) },
      )

  -- The visit of one pool that has a controller.
  unfoldable pub drive :
      PoolAutoscaler
      → Readings
      → F
      → F
      → Pool
      → PoolTopology
      → PidController fl
      → Result (PoolAutoscaler × AutoscalerDecision)
  drive a r now dt p topo c = do
    (c', raw) ←
        update fl c (of_int (get_or_zero p r.queue_depths -ℤ pos topo.target_queue_depth)) dt
    let a' = record a { controllers = Dict.set pool_discrete p c' a.controllers }
    delta ← raw_delta a' c' raw
    ok (settle a' r now p (clamp_delta a' (pos topo.replicas) delta))

  unfoldable pub visit :
      PoolAutoscaler
      → Readings
      → F
      → F
      → Pool
      → PoolTopology
      → Result (PoolAutoscaler × AutoscalerDecision)
  visit a r now dt p topo = elim (Dict.lookup pool_discrete p a.controllers) [
    | none ↦ ok (a, hold p no_controller)
    | some c ↦ drive a r now dt p topo c
  ]

  unfoldable pub tick :
      Readings
      → F
      → F
      → List (Pool × PoolTopology)
      → PoolAutoscaler
      → Result (PoolAutoscaler × List AutoscalerDecision)
  tick r now dt [] a = ok (a, [])
  tick r now dt ((p, topo) ∷ topology) a = do
    (a', d) ← visit a r now dt p topo
    (a'', ds) ← tick r now dt topology a'
    ok (a'', d ∷ ds)
