-- ===== src/Control/Router/Admission.antt =====
-- Which pool control/router.py sends a request to, and when it rejects.
use goodputlab.Prelude.{
  ◌≤◌, ◌≡◌, refl, ◌∙◌, Bool, true, false, Option, none, some, List, [], ◌∷◌, All, All-map,
  Bool-cases, Option-cases, inl, inr, arith,
}
use goodputlab.Prelude.Dict
use goodputlab.Prelude.Float.{FloatOps}
use goodputlab.Prelude.Sort.{All-filter, All-of_filter, All-sort, All-of_sort}
use goodputlab.Prelude.Text.{Text, text_discrete}
use goodputlab.Control.Pool.{Pool, PoolState, pool_discrete}
use goodputlab.Core.Trace.{RequestSpec}
use goodputlab.Control.Router.{
  Router, PoolDecision, entry_leb, depth_leb, is_tier, is_rag, admissible, eligible, select_tier,
  select_admissible, route_key, cached_pool, touch, balance, route_registered, route_among, route,
  unregistered, hit, full, balanced, remember, count_no_history,
}
use goodputlab.Control.Router.Select.{
  first_admissible-Found, first_admissible-eq-none, admissible-healthy,
}

pub entry_leb_below :
    (x y : Pool × PoolState) → entry_leb x y ≡ true → x.1.queue_depth ≤ y.1.queue_depth
unfolding entry_leb
entry_leb_below x y h = ground arith

pub entry_leb_above :
    (x y : Pool × PoolState) → entry_leb x y ≡ false → y.1.queue_depth ≤ x.1.queue_depth
unfolding entry_leb
entry_leb_above x y h = ground arith

module _ (fl : FloatOps) (r : Router fl) (spec : RequestSpec) where
  -- An entry of the registry, under its own key.
  abbrev pub Listed : Pool × PoolState → Type 0
  Listed e = Dict.lookup pool_discrete e.0 r.pools ≡ some e.1

  abbrev ok_for : PoolState → Bool
  ok_for = admissible fl r.policy spec

  -- The pool is registered, and the policy admits the request to it.
  abbrev pub Admits : Pool → Type 0
  Admits p =
      (s : PoolState) × (Dict.lookup pool_discrete p r.pools ≡ some s)
      × (admissible fl r.policy spec s ≡ true)

  pub eligible-Listed : Dict.Distinct r.pools → All Listed (eligible r.pools)
  eligible-Listed d =
      All-map (λ e h. h.0) _
        (All-filter Listed (λ e. e.1.healthy) r.pools
          (Dict.Distinct-lookup pool_discrete r.pools d))

  select_tier-Admits :
      (p : Pool)
      → Dict.Distinct r.pools
      → select_tier fl r.policy spec (eligible r.pools) ≡ some p
      → Admits p
  unfolding select_tier
  select_tier-Admits p d h = elim (Bool-cases (is_rag spec.workload)) [
    | inl rag ↦
        first_admissible-Found fl r.policy spec Listed _
          (All-sort depth_leb Listed _
            (All-map (λ e k. k.0) _ (All-filter Listed (λ e. is_tier e.0) _ (eligible-Listed d))))
          (rw rag at h)
    | inr other ↦ absurd (ground arith)
  ]

  pub select_admissible-Admits :
      (p : Pool) → Dict.Distinct r.pools → select_admissible fl r spec ≡ some p → Admits p
  unfolding select_admissible
  select_admissible-Admits p d h =
      elim (Option-cases (select_tier fl r.policy spec (eligible r.pools))) [
        | inl e ↦
            first_admissible-Found fl r.policy spec Listed _
              (All-sort entry_leb Listed _ (eligible-Listed d)) (rw (e, select_admissible) at h)
        | inr (q, e) ↦ select_tier-Admits p d (e ∙ (rw (e, select_admissible) at h))
      ]

  pub select_admissible-eq-none :
      select_admissible fl r spec ≡ none → All (λ e. ok_for e.1 ≡ false) r.pools
  unfolding select_admissible
  select_admissible-eq-none h =
      All-map (λ e refused. refusal e.1 refused) r.pools
        (All-of_filter (λ e. ok_for e.1 ≡ false) (λ e. e.1.healthy) r.pools
          (All-of_sort entry_leb (λ e. ok_for e.1 ≡ false) _
            (first_admissible-eq-none fl r.policy spec _ (ground arith))))
    where
      refusal : (s : PoolState) → (s.healthy ≡ true → ok_for s ≡ false) → ok_for s ≡ false
      refusal s refused = elim (Bool-cases (ok_for s)) [
        | inl yes_it_is ↦ refused (admissible-healthy fl r.policy spec s yes_it_is)
        | inr e ↦ e
      ]

  pub cached_pool-Admits : (key : Text) (p : Pool) → cached_pool fl r spec key ≡ some p → Admits p
  unfolding cached_pool
  cached_pool-Admits key p h = elim (Option-cases (Dict.lookup text_discrete key r.prefix_cache)) [
    | inl e ↦ absurd (ground arith)
    | inr (q, e) ↦ elim (Option-cases (Dict.lookup pool_discrete q r.pools)) [
      | inl e' ↦ absurd (ground arith)
      | inr (s, e') ↦ let same : q ≡ p = ground arith in (s, rw same at e', ground arith)
    ]
  ]

  abbrev pub chosen : Option Pool
  chosen = select_admissible fl r spec

  abbrev pub key : Text
  key = route_key fl r spec chosen

  -- The four ways in which a call ends, each with what decides it.
  pub data Outcome : Router fl × PoolDecision → Type 0 where
    empty : {d : Router fl × PoolDecision} → r.pools ≡ [] → d ≡ (r, unregistered) → Outcome d
    cached :
        {d : Router fl × PoolDecision} (p : Pool)
        → cached_pool fl r spec key ≡ some p
        → d ≡ (touch fl r key, hit p key)
        → Outcome d
    fresh :
        {d : Router fl × PoolDecision} (p : Pool)
        → cached_pool fl r spec key ≡ none
        → chosen ≡ some p
        → d ≡ (remember fl (count_no_history fl (touch fl r key)) key p, balanced p key)
        → Outcome d
    refused :
        {d : Router fl × PoolDecision}
        → cached_pool fl r spec key ≡ none
        → chosen ≡ none
        → d ≡ (count_no_history fl (touch fl r key), full key)
        → Outcome d

  balance-Outcome :
      (o : Option Pool)
      → cached_pool fl r spec key ≡ none
      → chosen ≡ o
      → Outcome (balance fl (touch fl r key) key o)
  unfolding balance
  balance-Outcome none e c = refused e c refl
  balance-Outcome (some p) e c = fresh p e c refl

  route_registered-Outcome : Outcome (route_registered fl r spec)
  unfolding route_registered
  route_registered-Outcome = elim (Option-cases (cached_pool fl r spec key)) [
    | inl e ↦ rw (e, route_registered) (balance-Outcome chosen e refl)
    | inr (p, e) ↦ rw (e, route_registered) (cached p e refl)
  ]

  route_among-Outcome :
      (es : List (Pool × PoolState)) → r.pools ≡ es → Outcome (route_among fl es r spec)
  unfolding route_among
  route_among-Outcome [] e = empty e refl
  route_among-Outcome (_ ∷ _) e = route_registered-Outcome

  pub route-Outcome : Outcome (route fl r spec)
  unfolding route
  route-Outcome = route_among-Outcome r.pools refl
