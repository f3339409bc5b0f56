-- ===== src/Bench/Orchestrator/Routing.antt =====
-- Where a dry run sends its requests.
use goodputlab.Prelude.{
  ℕ, ◌≡◌, refl, sym, ◌∙◌, subst, true, false, Option, none, some, List, All, Bool-cases, inl, inr,
  ◌⊎◌,
}
use goodputlab.Bench.Orchestrator.{routed_pool_for, pool_name}
use goodputlab.Control.Pool.{Pool, PoolState, pool_discrete, value}
use goodputlab.Control.Router.{
  Router, AdmissionPolicy, admissible, route, touch, count_no_history, remember,
}
use goodputlab.Control.Router.Admission.{empty, cached, fresh, refused, route-Outcome}
use goodputlab.Control.Router.Decisions.{route-Admits, route-rejects}
use goodputlab.Core.Trace.{RequestSpec}
use goodputlab.Loadgen.Replay.{Run, run_from, Reach}
use goodputlab.Loadgen.Replay.Routing.{IsPlaced, Reach-IsRouted}
use goodputlab.Prelude.Dict
use goodputlab.Prelude.Float.{FloatOps}
use goodputlab.Prelude.Int.{ℤ}
use goodputlab.Prelude.Json.{Json}
use goodputlab.Prelude.Result.{Error, Ensures}
use goodputlab.Prelude.Text.{Text, codes}

module _ (fl : FloatOps) where
  -- A router with the registry and the policy of another.
  abbrev IsLike : Router fl → Router fl → Type 0
  IsLike r s = (s.pools ≡ r.pools) × (s.policy ≡ r.policy)

  route-IsLike : (r : Router fl) (spec : RequestSpec) → IsLike r (route fl r spec).0
  unfolding touch count_no_history remember
  route-IsLike r spec = elim (route-Outcome fl r spec) [
    | empty _ e ↦ rw e (refl, refl)
    | cached p _ e ↦ rw e (refl, refl)
    | fresh p _ _ e ↦ rw e (refl, refl)
    | refused _ _ e ↦ rw e (refl, refl)
  ]

  -- The name of a pool that a registry and a policy admit the request to, or "colocated" where
  -- they admit it to none.
  abbrev pub IsTarget :
      List (Pool × PoolState) → AdmissionPolicy fl → RequestSpec → Option Text → Type 0
  IsTarget pools policy spec none = ⊥
  IsTarget pools policy spec (some name) =
      ((p : Pool) × (s : PoolState) × (name ≡ value p)
        × (Dict.lookup pool_discrete p pools ≡ some s)
        × (admissible fl policy spec s ≡ true))
      ⊎ ((name ≡ codes "colocated") × All (λ e. admissible fl policy spec e.1 ≡ false) pools)

  pool_name-IsTarget :
      (r : Router fl) (spec : RequestSpec)
      → Dict.Distinct r.pools
      → IsTarget r.pools r.policy spec (some (pool_name (route fl r spec).1))
  pool_name-IsTarget r spec d = elim (Bool-cases (route fl r spec).1.admitted) [
    | inl yes_it_is ↦
        let (s, listed, fits) = route-Admits fl r spec d yes_it_is in
        inl ((route fl r spec).1.pool, s, rw yes_it_is refl, listed, fits)
    | inr no_it_is ↦ inr (rw no_it_is refl, route-rejects fl r spec no_it_is)
  ]

  routed_pool_for-IsTarget :
      (router : Router fl)
      → Dict.Distinct router.pools
      → (spec : RequestSpec) (r : Router fl) → IsLike router r
      → IsLike router (routed_pool_for fl spec r).0
        × Ensures (IsTarget router.pools router.policy spec) (routed_pool_for fl spec r).1
  unfolding routed_pool_for
  routed_pool_for-IsTarget router d spec r (pools, policy) =
      let (pools', policy') = route-IsLike r spec in
      let target = pool_name-IsTarget r spec (subst Dict.Distinct (sym pools) d) in
      (
        (pools' ∙ pools, policy' ∙ policy),
        subst (λ ps. IsTarget ps router.policy spec (some (pool_name (route fl r spec).1))) pools
            (subst (λ q. IsTarget r.pools q spec (some (pool_name (route fl r spec).1))) policy
              target),
      )

  module _ (loads : Text → Option Json) (describe : Error → Text) (time : ℕ → ℕ) where
    -- In a dry run over a router, however the event loop orders the requests, each request in flight
    -- names a registered pool that the policy admits it to, or "colocated" if there is none, and so
    -- does the telemetry of each one that has ended. The keys of the registry are distinct.
    pub Reach-IsPlaced :
        (router : Router fl) (max_concurrent : ℕ) (pairs : List (RequestSpec × ℤ)) {n : ℕ}
        {u : Run fl (Router fl)}
        → Dict.Distinct router.pools
        → Reach fl loads describe time
            (routed_pool_for fl)
            (run_from fl max_concurrent router pairs)
            n
            u
        → All (IsPlaced fl (IsTarget router.pools router.policy)) u.tasks
    Reach-IsPlaced router max_concurrent pairs d r =
        (Reach-IsRouted fl loads describe time (routed_pool_for fl) (IsLike router)
          (IsTarget router.pools router.policy) (routed_pool_for-IsTarget router d) max_concurrent
          router pairs (refl, refl) r).1
