-- ===== src/Tests/Services.antt =====
-- The tier client, the tier policy, the speculative decoder and the metrics on small inputs.
use goodputlab.Prelude.{◌+◌, ◌≡◌, refl, true, [], ◌∷◌, ◌++◌, arith, length}
use goodputlab.Prelude.Dict
use goodputlab.Prelude.Int.{pos}
use goodputlab.Prelude.Result.{ok}
use goodputlab.Prelude.Text.{codes, text_discrete}
use goodputlab.Tests.Floats.{milli}
use goodputlab.Kv.Lmcache
use goodputlab.Kv.Lmcache.{MockLmcacheClient, store}
use goodputlab.Kv.Lmcache.Accounting.{IsValid}
use goodputlab.Kv.Lmcache.Calls
use goodputlab.Kv.Lmcache.Calls.{survivors, store-survivors}
use goodputlab.Kv.TierPolicy.{TierPolicy}
use goodputlab.Spec.Eagle
use goodputlab.Spec.Eagle.{SpecPolicy, SpecDecoder, is_topology_compatible}
use goodputlab.Spec.Eagle.Gate
use goodputlab.Spec.Eagle.Gate.{rounds, rounds-IsValid}

abbrev client : MockLmcacheClient milli
client = record {
  capacity = 2;
  hit_probability = pos 900;
  store_ = (codes "a", 10) ∷ (codes "b", 20) ∷ [];
  hits = 0;
  misses = 0;
  evictions = 0;
  used_bytes = pos 30;
  tier_name = codes "t";
}

client-IsValid : IsValid milli client
client-IsValid = record {
  distinct = ((λ e. ground arith, tt), (tt, tt));
  positive = omega arith;
  bounded = omega arith;
  used = refl;
}

store-survivors_example :
    (c' : MockLmcacheClient milli) × (store milli (codes "c") 5 client ≡ ok c')
    × (c'.store_ ≡ survivors 2 client.store_ ++ (codes "c", 5) ∷ [])
    × (c'.evictions + length (survivors 2 client.store_) ≡ 0 + 2)
unfolding Dict.lookup text_discrete
store-survivors_example = store-survivors milli client client-IsValid (codes "c") 5 refl

run_ok-IsValid_example :
    (c : MockLmcacheClient milli) × (Calls.run milli
        (Calls.Call.put (codes "a") 7
          ∷ Calls.Call.look (codes "a") (pos 500)
          ∷ Calls.Call.put (codes "b") 9
          ∷ [])
        (Lmcache.init milli 1 (pos 900))
      ≡ ok c)
    × IsValid milli c
run_ok-IsValid_example =
    Calls.run_ok-IsValid milli 1 (pos 900)
      (Calls.Call.put (codes "a") 7
        ∷ Calls.Call.look (codes "a") (pos 500)
        ∷ Calls.Call.put (codes "b") 9
        ∷ [])
      (omega arith)

abbrev tier_policy : TierPolicy milli
tier_policy = record { min_hit_rate = pos 500; min_capacity_free_pct = pos 10000 }

abbrev spec_policy : Eagle.Topology → SpecPolicy milli
spec_policy t = record {
  enabled = true;
  min_acceptance_rate = pos 400;
  min_window = 2;
  topology = t;
}

rounds-IsValid_example :
    Gate.IsValid milli
      (rounds milli
        (5 ∷ 5 ∷ [])
        (Eagle.init milli (spec_policy Eagle.colocated) (pos 800) (λ i. pos 900))).0
rounds-IsValid_example =
    rounds-IsValid milli (5 ∷ 5 ∷ []) (spec_policy Eagle.colocated) (pos 800) (λ i. pos 900)
      (omega arith)
