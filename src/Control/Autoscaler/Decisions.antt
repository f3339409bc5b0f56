-- ===== src/Control/Autoscaler/Decisions.antt =====
-- What each decision of a tick of control/autoscaler.py guarantees.
use goodputlab.Prelude.{◌≡◌, refl, true, List, [], ◌∷◌, ◌≢◌, arith, Option-cases, inl, inr}
use goodputlab.Prelude.Dict
use goodputlab.Prelude.Float.{FloatOps}
use goodputlab.Prelude.Int.{ℤ, pos, ◌+ℤ◌, ◌-ℤ◌, ◌≤ℤ◌, ltb_ℤ, +ℤ_parts, -ℤ_parts}
use goodputlab.Prelude.Result.{ok, Ensures, Ensures-bind, of_Ensures, to_Ensures}
use goodputlab.Control.Pid.{PidController, update}
use goodputlab.Control.Pool.{Pool, pool_discrete}
use goodputlab.Control.Autoscaler.{
  PoolTopology, AutoscalerDecision, Readings, PoolAutoscaler, get_or_zero, raw_delta, clamp_delta,
  settle, drive, visit, tick,
}

-- What a decision guarantees for a pool, by the bounds `lo` and `hi`.
pub record IsSafe (lo hi : ℤ) (r : Readings) (p : Pool) (topo : PoolTopology)
    (d : AutoscalerDecision) : Type 0 where
  pub pool : d.pool ≡ p
  pub at_least : d.delta ≢ pos 0 → lo ≤ℤ pos topo.replicas +ℤ d.delta
  pub at_most : d.delta ≢ pos 0 → pos topo.replicas +ℤ d.delta ≤ℤ hi
  pub idle : ltb_ℤ d.delta (pos 0) ≡ true → get_or_zero p r.in_flight ≤ℤ pos 0
  pub drained : d.drained ≡ ltb_ℤ d.delta (pos 0)

-- One decision for each pool of the topology, in its order, each of them safe.
abbrev pub AllSafe :
    ℤ → ℤ → Readings → List (Pool × PoolTopology) → List AutoscalerDecision → Type 0
AllSafe lo hi r [] [] = Unit
AllSafe lo hi r ((p, topo) ∷ topology) (d ∷ ds) =
    IsSafe lo hi r p topo d × AllSafe lo hi r topology ds
AllSafe lo hi r _ _ = ⊥

module _ (fl : FloatOps) (lo hi : ℤ) where
  open fl use {F}

  -- The bounds that a tick works with; no operation changes them.
  pub record HasBounds (a : PoolAutoscaler fl) : Type 0 where
    pub min_eq : a.min_replicas ≡ lo
    pub max_eq : a.max_replicas ≡ hi

  clamp_delta_bounds :
      (a : PoolAutoscaler fl) (replicas delta : ℤ)
      → HasBounds a
      → lo ≤ℤ hi
      → (lo ≤ℤ replicas +ℤ clamp_delta fl a replicas delta)
        × (replicas +ℤ clamp_delta fl a replicas delta ≤ℤ hi)
  unfolding clamp_delta
  clamp_delta_bounds a replicas delta b v = ground (
    arith,
    +ℤ_parts replicas delta,
    -ℤ_parts a.max_replicas replicas,
    -ℤ_parts a.min_replicas replicas,
    +ℤ_parts replicas (a.max_replicas -ℤ replicas),
    +ℤ_parts replicas (a.min_replicas -ℤ replicas),
  )

  settle-IsSafe :
      (a : PoolAutoscaler fl) (r : Readings) (now : F) (p : Pool) (topo : PoolTopology) (delta : ℤ)
      → HasBounds a
      → lo ≤ℤ pos topo.replicas +ℤ delta
      → pos topo.replicas +ℤ delta ≤ℤ hi
      → IsSafe lo hi r p topo (settle fl a r now p delta).1
        × HasBounds (settle fl a r now p delta).0
  unfolding settle
  settle-IsSafe a r now p topo delta b least most = ground arith

  -- A step keeps the bounds, and its decision is safe by them.
  abbrev Good : Readings → Pool → PoolTopology → PoolAutoscaler fl × AutoscalerDecision → Type 0
  Good r p topo s = IsSafe lo hi r p topo s.1 × HasBounds s.0

  abbrev GoodTick :
      Readings → List (Pool × PoolTopology) → PoolAutoscaler fl × List AutoscalerDecision → Type 0
  GoodTick r topology s = AllSafe lo hi r topology s.1 × HasBounds s.0

  module _ (r : Readings) (now dt : F) (v : lo ≤ℤ hi) where
    drive-Good :
        (a : PoolAutoscaler fl) (p : Pool) (topo : PoolTopology) (c : PidController fl)
        → HasBounds a
        → Ensures (Good r p topo) (drive fl a r now dt p topo c)
    unfolding drive
    drive-Good a p topo c b =
        Ensures-bind (λ _. Unit {0}) (Good r p topo) (update fl c _ dt) _
          (to_Ensures (λ _. Unit {0}) (update fl c _ dt) (λ _ _. tt))
          (λ s _.
            let a' : PoolAutoscaler fl = record a {
              controllers = Dict.set pool_discrete p s.0 a.controllers;
            } in
            let b' : HasBounds a' = record { min_eq = b.min_eq; max_eq = b.max_eq } in
            Ensures-bind (λ _. Unit {0}) (Good r p topo) (raw_delta fl a' s.0 s.1) _
              (to_Ensures (λ _. Unit {0}) (raw_delta fl a' s.0 s.1) (λ _ _. tt))
              (λ delta _.
                let fits = clamp_delta_bounds a' (pos topo.replicas) delta b' v in
                settle-IsSafe a' r now p topo _ b' fits.0 fits.1))

    visit-Good :
        (a : PoolAutoscaler fl) (p : Pool) (topo : PoolTopology)
        → HasBounds a
        → Ensures (Good r p topo) (visit fl a r now dt p topo)
    unfolding visit
    visit-Good a p topo b = elim (Option-cases (Dict.lookup pool_discrete p a.controllers)) [
      | inl e ↦ rw (e, visit) (ground arith, b)
      | inr (c, e) ↦ rw (e, visit) (drive-Good a p topo c b)
    ]

    tick-GoodTick :
        (a : PoolAutoscaler fl) (topology : List (Pool × PoolTopology))
        → HasBounds a
        → Ensures (GoodTick r topology) (tick fl r now dt topology a)
    unfolding tick
    tick-GoodTick a [] b = (tt, b)
    tick-GoodTick a ((p, topo) ∷ topology) b =
        Ensures-bind (Good r p topo) (GoodTick r ((p, topo) ∷ topology))
          (visit fl a r now dt p topo) _ (visit-Good a p topo b)
          (λ s good.
            Ensures-bind (GoodTick r topology) (GoodTick r ((p, topo) ∷ topology))
              (tick fl r now dt topology s.0) _ (tick-GoodTick s.0 topology good.1)
              (λ t rest. ((good.0, rest.0), rest.1)))

-- A tick that returns makes one decision for each pool of the topology, in its order. A decision
-- that is not zero takes the pool's replicas into the bounds, one below zero is made only for a
-- pool that has nothing in flight, and `drained` marks just these. The bounds are in order, as
-- the constructor checks, and the tick keeps them.
pub tick-AllSafe :
    (fl : FloatOps) (r : Readings) (now dt : fl.F) (topology : List (Pool × PoolTopology))
    (a : PoolAutoscaler fl) {a' : PoolAutoscaler fl} {ds : List AutoscalerDecision}
    → a.min_replicas ≤ℤ a.max_replicas
    → tick fl r now dt topology a ≡ ok (a', ds)
    → AllSafe a.min_replicas a.max_replicas r topology ds
      × HasBounds fl a.min_replicas a.max_replicas a'
tick-AllSafe fl r now dt topology a v e =
    of_Ensures (GoodTick fl a.min_replicas a.max_replicas r topology) (tick fl r now dt topology a)
      (tick-GoodTick fl a.min_replicas a.max_replicas r now dt v a topology
        (record { min_eq = refl; max_eq = refl }))
      e
