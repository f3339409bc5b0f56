-- ===== src/Control/Router/Decisions.antt =====
-- What a decision of control/router.py says about the registered pools.
use goodputlab.Prelude.{
  eq_of_some, ◌≤◌, ◌≡◌, ◌≢◌, refl, ap, sym, ◌∙◌, true, false, none, some, List, [], ◌∷◌, All,
  All-map, All-tt, Bool-cases, Option-cases, inl, inr, arith,
}
use mathlib.Core.Bool.{false≢true}
use goodputlab.Prelude.Dict
use goodputlab.Prelude.Float.{FloatOps}
use goodputlab.Prelude.Sort.{
  filter, All-filter, All-of_filter, sort, All-sort, All-of_sort, sort-IsAscending,
}
use goodputlab.Prelude.Text.{Text, text_discrete}
use goodputlab.Control.Pool.{Pool, PoolState, pool_discrete}
use goodputlab.Core.Trace.{RequestSpec, WorkloadType}
use goodputlab.Control.Router.{
  Router, load_balance, cache_hit, entry_leb, depth_leb, is_tier, is_rag, admissible, eligible,
  select_tier, select_admissible, route_key, cached_pool, route, hit,
}
use goodputlab.Control.Router.Select.{
  first_admissible-Least, first_admissible-Found, first_admissible-eq-none, Least,
  admissible-healthy,
}
use goodputlab.Control.Router.Admission.{
  Admits, empty, cached, fresh, refused, route-Outcome, Listed, key, eligible-Listed,
  entry_leb_below, entry_leb_above, select_admissible-Admits, select_admissible-eq-none,
  cached_pool-Admits,
}

module _ (fl : FloatOps) (r : Router fl) (spec : RequestSpec) where
  -- An admitted request goes to a registered pool that the policy admits it to. The keys of the
  -- registry are distinct, as in every dictionary.
  pub route-Admits :
      Dict.Distinct r.pools
      → (route fl r spec).1.admitted ≡ true
      → Admits fl r spec (route fl r spec).1.pool
  route-Admits d yes_it_is = elim (route-Outcome fl r spec) [
    | empty _ e ↦ absurd (ground arith)
    | cached p c e ↦ rw e (cached_pool-Admits fl r spec _ p c)
    | fresh p _ c e ↦ rw e (select_admissible-Admits fl r spec p d c)
    | refused _ _ e ↦ absurd (ground arith)
  ]

  -- A request is rejected only when no registered pool admits it.
  pub route-rejects :
      (route fl r spec).1.admitted ≡ false
      → All (λ e. admissible fl r.policy spec e.1 ≡ false) r.pools
  route-rejects no_it_is = elim (route-Outcome fl r spec) [
    | empty none_there _ ↦ rw none_there tt
    | cached p _ e ↦ absurd (ground arith)
    | fresh p _ _ e ↦ absurd (ground arith)
    | refused _ c _ ↦ select_admissible-eq-none fl r spec c
  ]

  cached_pool-eq_some :
      (key : Text) (p : Pool) (s : PoolState)
      → Dict.lookup text_discrete key r.prefix_cache ≡ some p
      → Dict.lookup pool_discrete p r.pools ≡ some s
      → admissible fl r.policy spec s ≡ true
      → cached_pool fl r spec key ≡ some p
  unfolding cached_pool
  cached_pool-eq_some key p s known there fits =
      ground (arith, admissible-healthy fl r.policy spec s)

  not-empty :
      (p : Pool) (s : PoolState) (es : List (Pool × PoolState))
      → Dict.lookup pool_discrete p es ≡ some s
      → es ≢ []
  unfolding Dict.lookup
  not-empty p s [] h = cc
  not-empty p s (e ∷ es) h = cc

  -- A cached pool that is registered and admits the request wins, whatever the class of the
  -- request and however deep its queue.
  pub route-cached :
      (p : Pool) (s : PoolState)
      → Dict.lookup text_discrete (route_key fl r spec (select_admissible fl r spec)) r.prefix_cache
        ≡ some p
      → Dict.lookup pool_discrete p r.pools ≡ some s
      → admissible fl r.policy spec s ≡ true
      → (route fl r spec).1 ≡ hit p (route_key fl r spec (select_admissible fl r spec))
  route-cached p s known there fits =
      let accepted = cached_pool-eq_some (key fl r spec) p s known there fits in
      elim (route-Outcome fl r spec) [
        | empty none_there _ ↦ absurd (not-empty p s r.pools there none_there)
        | cached q c e ↦ let same : p ≡ q = eq_of_some (sym accepted ∙ c) in rw (e, same) refl
        | fresh q c _ e ↦ cc
        | refused c _ e ↦ cc
      ]

  Least-of_healthy :
      (s : PoolState) (e : Pool × PoolState)
      → (e.1.healthy ≡ true → Least fl r.policy spec s e)
      → Least fl r.policy spec s e
  Least-of_healthy s e up fits = up (admissible-healthy fl r.policy spec e.1 fits) fits

  select_admissible-Least :
      (p : Pool)
      → Dict.Distinct r.pools
      → spec.workload ≢ WorkloadType.rag
      → select_admissible fl r spec ≡ some p
      → (s : PoolState) × (Dict.lookup pool_discrete p r.pools ≡ some s)
        × (admissible fl r.policy spec s ≡ true)
        × All (Least fl r.policy spec s) r.pools
  unfolding select_admissible select_tier
  select_admissible-Least p d other h =
      let (s, listed, fits, least) =
        first_admissible-Least fl r.policy spec (Listed fl r spec)
          (sort entry_leb (eligible r.pools)) {p = p}
          (sort-IsAscending entry_leb (λ e. e.1.queue_depth) entry_leb_below entry_leb_above _)
          (All-sort entry_leb (Listed fl r spec) _ (eligible-Listed fl r spec d)) (ground arith) in
      (
        s,
        listed,
        fits,
        All-map (Least-of_healthy s) r.pools (
            All-of_filter (Least fl r.policy spec s) (λ e. e.1.healthy) r.pools
              (All-of_sort entry_leb (Least fl r.policy spec s) _ least)),
      )

  -- By load balancing, a request that is not RAG goes to an admissible pool of least queue depth
  -- among all the admissible pools. The keys of the registry are distinct.
  pub route-Least :
      Dict.Distinct r.pools
      → spec.workload ≢ WorkloadType.rag
      → (route fl r spec).1.reason ≡ load_balance
      → (s : PoolState) × (Dict.lookup pool_discrete (route fl r spec).1.pool r.pools ≡ some s)
        × (admissible fl r.policy spec s ≡ true)
        × All
            (λ e. admissible fl r.policy spec e.1 ≡ true → s.queue_depth ≤ e.1.queue_depth)
            r.pools
  route-Least d other why = elim (route-Outcome fl r spec) [
    | empty _ e ↦ absurd (ground arith)
    | cached p _ e ↦ absurd (ground arith)
    | fresh p _ c e ↦ rw e (select_admissible-Least p d other c)
    | refused _ _ e ↦ absurd (ground arith)
  ]

  is_tier-eq : (p : Pool) → is_tier p ≡ true → p ≡ Pool.tier
  is_tier-eq p h = ground arith

  -- What the search for a tier pool leaves out when it finds none.
  TierRefused : Pool × PoolState → Type 0
  TierRefused e = e.1.healthy ≡ true → is_tier e.0 ≡ true → admissible fl r.policy spec e.1 ≡ false

  select_tier-eq-none :
      spec.workload ≡ WorkloadType.rag
      → select_tier fl r.policy spec (eligible r.pools) ≡ none
      → All TierRefused r.pools
  unfolding select_tier TierRefused
  select_tier-eq-none rag h =
      let is_it : is_rag spec.workload ≡ true = ap is_rag rag in
      All-of_filter _ (λ e. e.1.healthy) r.pools
        (All-of_filter _ (λ e. is_tier e.0) (eligible r.pools)
          (All-of_sort depth_leb (λ e. admissible fl r.policy spec e.1 ≡ false) _
            (first_admissible-eq-none fl r.policy spec _ (rw (is_it, select_tier) at h))))

  select_tier-is_tier :
      (p : Pool) → select_tier fl r.policy spec (eligible r.pools) ≡ some p → is_tier p ≡ true
  unfolding select_tier
  select_tier-is_tier p h = elim (Bool-cases (is_rag spec.workload)) [
    | inl rag ↦
        let (s, tiered, _) =
          first_admissible-Found fl r.policy spec (λ e. is_tier e.0 ≡ true)
            (sort depth_leb (filter (λ e. is_tier e.0) (eligible r.pools)))
            (All-sort depth_leb (λ e. is_tier e.0 ≡ true) _
              (All-map (λ e k. k.1) _
                (All-filter (λ _. Unit {0}) (λ e. is_tier e.0) (eligible r.pools) (All-tt _))))
            (rw rag at h) in
        tiered
    | inr other ↦ absurd (ground arith)
  ]

  select_rag :
      (s : PoolState)
      → spec.workload ≡ WorkloadType.rag
      → Dict.lookup pool_discrete Pool.tier r.pools ≡ some s
      → admissible fl r.policy spec s ≡ true
      → select_admissible fl r spec ≡ some Pool.tier
  unfolding select_admissible TierRefused
  select_rag s rag there fits =
      elim (Option-cases (select_tier fl r.policy spec (eligible r.pools))) [
        | inl e ↦
            let no_fit =
              Dict.All-lookup pool_discrete TierRefused Pool.tier s r.pools
                (select_tier-eq-none rag e) there in
            absurd
              (false≢true (sym (no_fit (admissible-healthy fl r.policy spec s fits) refl) ∙ fits))
        | inr (p, e) ↦ rw (e, select_admissible) (ap some (is_tier-eq p (select_tier-is_tier p e)))
      ]

  -- A RAG request that misses the cache goes to the tier pool, if that is registered and admits it.
  route-rag :
      (s : PoolState)
      → spec.workload ≡ WorkloadType.rag
      → Dict.lookup pool_discrete Pool.tier r.pools ≡ some s
      → admissible fl r.policy spec s ≡ true
      → (route fl r spec).1.reason ≢ cache_hit
      → ((route fl r spec).1.pool ≡ Pool.tier) × ((route fl r spec).1.admitted ≡ true)
  route-rag s rag there fits miss =
      let to_tier = select_rag s rag there fits in
      elim (route-Outcome fl r spec) [
        | empty none_there _ ↦ absurd (not-empty Pool.tier s r.pools there none_there)
        | cached p _ e ↦ absurd (miss (rw e refl))
        | fresh p _ c e ↦ rw e (eq_of_some (sym c ∙ to_tier), refl)
        | refused _ c e ↦ cc
      ]
