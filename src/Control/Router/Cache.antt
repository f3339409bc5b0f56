-- ===== src/Control/Router/Cache.antt =====
-- The prefix cache of control/router.py: its bound, and that a routed prefix stays with its pool.
use goodputlab.Prelude.{
  ℕ, ◌+◌, ◌-◌, ◌≤◌, ◌≡◌, Option, List, [], ◌∷◌, Bool-cases, Option-cases, inl, inr, arith, ltb,
  length,
}
use goodputlab.Prelude.Dict
use goodputlab.Prelude.Dict.Recent.{move_to_end-Distinct, length-move_to_end}
use goodputlab.Prelude.Float.{FloatOps}
use goodputlab.Prelude.Int.{ℤ}
use goodputlab.Prelude.Text.{Text, Bytes, text_discrete}
use goodputlab.Control.Pool.{Pool, PoolState, pool_discrete}
use goodputlab.Core.Trace.{RequestSpec}
use goodputlab.Obs.{MetricsRegistry}
use goodputlab.Control.Router.{
  Router, AdmissionPolicy, drop_oldest, init, register_pool, update_depth, publish_metrics, touch,
  count_no_history, remember, route,
}
use goodputlab.Control.Router.Admission.{empty, cached, fresh, refused, route-Outcome}

module _ (fl : FloatOps) where
  -- The registry and the cache are dictionaries, and the cache is within its size.
  pub record IsValid (r : Router fl) : Type 0 where
    pub pools : Dict.Distinct r.pools
    pub cache : Dict.Distinct r.prefix_cache
    pub bounded : length r.prefix_cache ≤ r.cache_max

  touch-IsValid : (r : Router fl) (k : Text) → IsValid r → IsValid (touch fl r k)
  unfolding touch
  touch-IsValid r k v = record {
    pools = v.pools;
    cache = move_to_end-Distinct text_discrete k r.prefix_cache v.cache;
    bounded = rw (length-move_to_end) v.bounded;
  }

  count-IsValid : (r : Router fl) → IsValid r → IsValid (count_no_history fl r)
  unfolding count_no_history
  count-IsValid r v = record { pools = v.pools; cache = v.cache; bounded = v.bounded }

  drop_oldest-Distinct : (c : List (Text × Pool)) → Dict.Distinct c → Dict.Distinct (drop_oldest c)
  drop_oldest-Distinct [] h = tt
  drop_oldest-Distinct (e ∷ c) h = h.1

  length-drop_oldest : (c : List (Text × Pool)) → length (drop_oldest c) ≡ length c - 1
  length-drop_oldest [] = omega arith
  length-drop_oldest (e ∷ c) = omega arith

  length-set-le :
      (k : Text) (p : Pool) (c : List (Text × Pool))
      → length (Dict.set text_discrete k p c) ≤ length c + 1
  length-set-le k p c = ground (arith, Dict.length-set text_discrete k p c)

  remember-IsValid : (r : Router fl) (k : Text) (p : Pool) → IsValid r → IsValid (remember fl r k p)
  unfolding remember
  remember-IsValid r k p v =
      let c = Dict.set text_discrete k p r.prefix_cache in
      let distinct = Dict.set-Distinct text_discrete k p r.prefix_cache v.cache in
      elim (Bool-cases (ltb r.cache_max (length c))) [
        | inl over ↦
            rw (over, remember)
              (record {
                pools = v.pools;
                cache = drop_oldest-Distinct c distinct;
                bounded = ground (arith, length-drop_oldest c, length-set-le k p r.prefix_cache);
              })
        | inr fits ↦
            rw (fits, remember)
              (record { pools = v.pools; cache = distinct; bounded = ground arith })
      ]

  pub route-IsValid : (r : Router fl) (spec : RequestSpec) → IsValid r → IsValid (route fl r spec).0
  route-IsValid r spec v = elim (route-Outcome fl r spec) [
    | empty _ e ↦ rw e v
    | cached p _ e ↦ rw e (touch-IsValid r _ v)
    | fresh p _ _ e ↦ rw e (remember-IsValid _ _ p (count-IsValid _ (touch-IsValid r _ v)))
    | refused _ _ e ↦ rw e (count-IsValid _ (touch-IsValid r _ v))
  ]

  register_pool-IsValid :
      (r : Router fl) (s : PoolState) → IsValid r → IsValid (register_pool fl s r)
  unfolding register_pool
  register_pool-IsValid r s v = record {
    pools = Dict.set-Distinct pool_discrete s.pool s r.pools v.pools;
    cache = v.cache;
    bounded = v.bounded;
  }

  update_depth-IsValid :
      (r : Router fl) (p : Pool) (depth : ℤ) → IsValid r → IsValid (update_depth fl p depth r)
  unfolding update_depth
  update_depth-IsValid r p depth v = elim (Option-cases (Dict.lookup pool_discrete p r.pools)) [
    | inl e ↦ rw (e, update_depth) v
    | inr (s, e) ↦
        rw (e, update_depth)
          (record {
            pools = Dict.set-Distinct pool_discrete p _ r.pools v.pools;
            cache = v.cache;
            bounded = v.bounded;
          })
  ]

  publish_metrics-IsValid : (r : Router fl) → IsValid r → IsValid (publish_metrics fl r)
  unfolding publish_metrics
  publish_metrics-IsValid r v = elim (Option-cases r.metrics) [
    | inl e ↦ ground arith
    | inr (m, e) ↦ ground arith
  ]

  -- The calls that the owner of a router makes.
  pub data Call : Type 0 where
    register : PoolState → Call
    depth : Pool → ℤ → Call
    publish : Call
    send : RequestSpec → Call

  unfoldable pub perform : Call → Router fl → Router fl
  unfolding register_pool update_depth publish_metrics
  perform (register s) r = register_pool fl s r
  perform (depth p n) r = update_depth fl p n r
  perform publish r = publish_metrics fl r
  perform (send spec) r = (route fl r spec).0

  unfoldable pub run : List Call → Router fl → Router fl
  unfolding perform
  run [] r = r
  run (c ∷ calls) r = run calls (perform c r)

  perform-IsValid : (c : Call) (r : Router fl) → IsValid r → IsValid (perform c r)
  unfolding perform
  perform-IsValid (register s) r v = register_pool-IsValid r s v
  perform-IsValid (depth p n) r v = update_depth-IsValid r p n v
  perform-IsValid publish r v = publish_metrics-IsValid r v
  perform-IsValid (send spec) r v = route-IsValid r spec v

  run_keeps : (calls : List Call) (r : Router fl) → IsValid r → IsValid (run calls r)
  unfolding run
  run_keeps [] r v = v
  run_keeps (c ∷ calls) r v = run_keeps calls (perform c r) (perform-IsValid c r v)

  -- After any sequence of calls on a new router the keys of the registry and of the prefix cache
  -- are distinct, and the cache holds no more entries than its size.
  pub run-IsValid :
      (policy : AdmissionPolicy fl) (size : ℕ) (salt : Pool → Bytes) (digest : Bytes → Text)
      (metrics : Option (MetricsRegistry fl)) (calls : List Call)
      → IsValid (run calls (init fl policy size salt digest metrics))
  unfolding init
  run-IsValid policy size salt digest metrics calls =
      run_keeps calls _ (record { pools = tt; cache = tt; bounded = omega arith })
