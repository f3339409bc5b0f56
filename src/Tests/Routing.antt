-- ===== src/Tests/Routing.antt =====
-- The router on small inputs.
use goodputlab.Prelude.{ℕ, ◌≤◌, ◌≡◌, refl, true, false, none, some, [], ◌∷◌, All, arith}
use goodputlab.Prelude.Dict
use goodputlab.Prelude.Dict.Last.{last}
use goodputlab.Prelude.Int.{pos, ◌+ℤ◌, ◌-ℤ◌, ◌*ℤ◌}
use goodputlab.Prelude.Sort.{sort, insert, filter}
use goodputlab.Prelude.Text.{codes, text_discrete}
use goodputlab.Tests.Floats.{milli}
use goodputlab.Control.Pool.{Pool, PoolState, pool_discrete, headroom_used_pct}
use goodputlab.Core.Trace.{RequestSpec, SloClass, WorkloadType}
use goodputlab.Control.Router.{
  Router, hit, entry_leb, depth_leb, admissible, first_admissible, select_tier, select_admissible,
  route_key, prefix_key, cached_pool, touch, count_no_history, remember, balance, route_registered,
  route_among, route, init,
}
use goodputlab.Control.Router.Admission.{Admits}
use goodputlab.Control.Router.Cache
use goodputlab.Control.Router.Cache.{IsValid, Call, run-IsValid}
use goodputlab.Control.Router.Decisions.{route-Admits, route-rejects, route-Least}
use goodputlab.Control.Router.Recency.{replay, run-last}
use goodputlab.Control.Router.Sticky.{route-route}

program : Unit {0}
unfolding ◌+ℤ◌ ◌-ℤ◌ ◌*ℤ◌ Dict.lookup Dict.set Dict.remove Dict.move_to_end pool_discrete
    text_discrete sort insert filter headroom_used_pct entry_leb depth_leb admissible
    first_admissible select_tier select_admissible route_key prefix_key cached_pool touch
    count_no_history remember balance route_registered route_among route
program = tt

abbrev state : Pool → ℕ → ℕ → PoolState
state p depth capacity = record {
  pool = p;
  queue_depth = depth;
  capacity = capacity;
  healthy = true;
}

-- The digest of a text is the text: any function serves.
abbrev pub router : Router milli
router = record {
  policy = record { headroom_pct = pos 80000; interactive_bypass = true };
  cache_max = 2;
  salt_for_pool = λ p. [];
  hexdigest = λ bytes. bytes;
  prefix_cache = [];
  pools =
      (Pool.prefill, state Pool.prefill 7 10)
      ∷ (Pool.decode, state Pool.decode 3 10)
      ∷ (Pool.tier, state Pool.tier 9 20)
      ∷ [];
  metrics = some [];
}

abbrev request : SloClass → WorkloadType → RequestSpec
request slo workload = record {
  request_id = codes "r1";
  slo_class = slo;
  workload = workload;
  prompt_tokens = 3;
  output_tokens = 1;
  prompt_text = codes "abc";
}

abbrev pub chat : RequestSpec
chat = request SloClass.batch WorkloadType.chat

abbrev rag : RequestSpec
rag = request SloClass.batch WorkloadType.rag

pub pools-Distinct : Dict.Distinct router.pools
pools-Distinct = ((λ e. ground arith, (λ e. ground arith, tt)), ((λ e. ground arith, tt), (tt, tt)))

router-IsValid : IsValid milli router
router-IsValid = record { pools = pools-Distinct; cache = tt; bounded = omega arith }

route-Admits_example : Admits milli router chat Pool.decode
unfolding program
route-Admits_example = route-Admits milli router chat pools-Distinct refl

-- Every pool is at 80 percent or above, and the request is no interactive one.
abbrev crowded : Router milli
crowded = record router { pools = (Pool.prefill, state Pool.prefill 8 10) ∷ [] }

route-rejects_example : All (λ e. admissible milli crowded.policy chat e.1 ≡ false) crowded.pools
unfolding program
route-rejects_example = route-rejects milli crowded chat refl

-- The prefix was cached for a pool that is now deeper than the others.
abbrev warm : Router milli
warm = record router { prefix_cache = (codes "abc", Pool.prefill) ∷ [] }

route-Least_example :
    (s : PoolState) × (Dict.lookup pool_discrete Pool.decode router.pools ≡ some s)
    × (admissible milli router.policy chat s ≡ true)
    × All
        (λ e. admissible milli router.policy chat e.1 ≡ true → s.queue_depth ≤ e.1.queue_depth)
        router.pools
unfolding program
route-Least_example = route-Least milli router chat pools-Distinct (λ e. ground arith) refl

route-route_example :
    (route milli (route milli router chat).0 chat).1
    ≡ hit (route milli router chat).1.pool (route_key milli router chat (some Pool.decode))
unfolding program
route-route_example = route-route milli router chat router-IsValid (omega arith) refl

run-IsValid_example : IsValid milli (
    Cache.run milli
      (Call.register (state Pool.decode 0 4) ∷ Call.depth Pool.decode (pos 2) ∷ Call.send chat ∷ [])
      (init milli router.policy 2 router.salt_for_pool router.hexdigest none))
run-IsValid_example =
    run-IsValid milli router.policy 2 router.salt_for_pool router.hexdigest none
      (Call.register (state Pool.decode 0 4) ∷ Call.depth Pool.decode (pos 2) ∷ Call.send chat ∷ [])

run-last_example :
    (Cache.run milli
      (Call.register (state Pool.decode 0 4) ∷ Call.send chat ∷ Call.send rag ∷ [])
      (init milli router.policy 1 router.salt_for_pool router.hexdigest none)).prefix_cache
    ≡ last 1 (
        replay milli
          (Call.register (state Pool.decode 0 4) ∷ Call.send chat ∷ Call.send rag ∷ [])
          (init milli router.policy 1 router.salt_for_pool router.hexdigest none)
          [])
run-last_example =
    run-last milli router.policy 1 router.salt_for_pool router.hexdigest none
      (Call.register (state Pool.decode 0 4) ∷ Call.send chat ∷ Call.send rag ∷ [])
