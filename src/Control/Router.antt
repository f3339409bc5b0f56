-- ===== src/Control/Router.antt =====
-- control/router.py: the router with its pool registry, its prefix cache and the admission policy.
pub mod Select
pub mod Admission
pub mod Decisions
pub mod Cache
pub mod Recency
pub mod Sticky
use goodputlab.Prelude.{
  ℕ, ◌+◌, ◌≡◌, refl, Bool, true, false, ◌&&◌, Option, none, some, List, [], ◌∷◌, ◌++◌, ite,
  if◌then◌else◌, ltb, ◌==◌, length, take,
}
use mathlib.Core.Option
use goodputlab.Prelude.Dict
use goodputlab.Prelude.Float.{FloatOps}
use goodputlab.Prelude.Int.{ℤ, pos}
use goodputlab.Prelude.Sort.{filter, sort}
use goodputlab.Prelude.Text.{Text, Bytes, codes, text_discrete, text_leb, encode}
use goodputlab.Control.Pool.{Pool, PoolState, pool_discrete, value, headroom_used_pct}
use goodputlab.Core.Trace.{RequestSpec, SloClass, WorkloadType}
use goodputlab.Obs.{MetricsRegistry, inc_no_history, set_prefix_index_size_bytes, set_queue_depth}

pub data Reason : Type 0 where
  no_pools_registered cache_hit all_pools_full load_balance : Reason

pub record PoolDecision : Type 0 where
  pub pool : Pool
  pub admitted : Bool
  pub reason : Reason
  pub prefix_hash : Option Text

-- `hexdigest` is `hashlib.sha256(…).hexdigest()`, which is not modelled.
unfoldable pub prefix_key : (Bytes → Text) → RequestSpec → Bytes → Text
unfolding encode
prefix_key hexdigest spec salt = take 16 (hexdigest (salt ++ encode (take 256 spec.prompt_text)))

-- The sort key `(queue_depth, pool.value)`, compared as Python compares tuples.
unfoldable pub entry_leb : Pool × PoolState → Pool × PoolState → Bool
unfolding text_leb
entry_leb a b =
    if a.1.queue_depth == b.1.queue_depth
    then text_leb (value a.1.pool) (value b.1.pool)
    else ltb a.1.queue_depth b.1.queue_depth

-- The sort key `queue_depth` of the tier pools.
unfoldable pub depth_leb : Pool × PoolState → Pool × PoolState → Bool
depth_leb a b = if ltb b.1.queue_depth a.1.queue_depth then false else true

abbrev pub is_tier : Pool → Bool
is_tier Pool.tier = true
is_tier _ = false

abbrev pub is_rag : WorkloadType → Bool
is_rag WorkloadType.rag = true
is_rag _ = false

abbrev pub is_interactive : SloClass → Bool
is_interactive SloClass.interactive = true
is_interactive SloClass.batch = false

abbrev pub eligible : List (Pool × PoolState) → List (Pool × PoolState)
eligible = filter (λ e. e.1.healthy)

-- `max(0, depth)` of an integer.
abbrev pub depth_of : ℤ → ℕ
depth_of (pos n) = n
depth_of _ = 0

-- `popitem(last=False)`
abbrev pub drop_oldest : List (Text × Pool) → List (Text × Pool)
drop_oldest [] = []
drop_oldest (e ∷ cache) = cache

-- The decisions of the four ways to leave `route`.
abbrev pub unregistered : PoolDecision
unregistered = record {
  pool = Pool.colocated;
  admitted = false;
  reason = no_pools_registered;
  prefix_hash = none;
}

abbrev pub hit : Pool → Text → PoolDecision
hit p key = record { pool = p; admitted = true; reason = cache_hit; prefix_hash = some key }

abbrev pub full : Text → PoolDecision
full key = record {
  pool = Pool.colocated;
  admitted = false;
  reason = all_pools_full;
  prefix_hash = some key;
}

abbrev pub balanced : Pool → Text → PoolDecision
balanced p key = record { pool = p; admitted = true; reason = load_balance; prefix_hash = some key }

module _ (fl : FloatOps) where
  open fl use {F, of_int, lt}

  pub record AdmissionPolicy : Type 0 where
    pub headroom_pct : F
    pub interactive_bypass : Bool

  -- `salt_for_pool` and the digest are fixed for a router's life.
  pub record Router : Type 0 where
    pub policy : AdmissionPolicy
    pub cache_max : ℕ
    pub salt_for_pool : Pool → Bytes
    pub hexdigest : Bytes → Text
    pub prefix_cache : List (Text × Pool)
    pub pools : List (Pool × PoolState)
    pub metrics : Option (MetricsRegistry fl)

  unfoldable pub init :
      AdmissionPolicy → ℕ → (Pool → Bytes) → (Bytes → Text) → Option (MetricsRegistry fl) → Router
  init policy size salt digest metrics = record {
    policy = policy;
    cache_max = size;
    salt_for_pool = salt;
    hexdigest = digest;
    prefix_cache = [];
    pools = [];
    metrics = metrics;
  }

  unfoldable pub register_pool : PoolState → Router → Router
  register_pool s r = record r { pools = Dict.set pool_discrete s.pool s r.pools }

  unfoldable pub update_depth : Pool → ℤ → Router → Router
  update_depth p depth r = elim (Dict.lookup pool_discrete p r.pools) [
    | none ↦ r
    | some s ↦ record r {
      pools = Dict.set pool_discrete p (record s { queue_depth = depth_of depth }) r.pools;
    }
  ]

  -- The byte estimate of the prefix index: 16 more than the two texts of each entry.
  unfoldable pub index_bytes : List (Text × Pool) → ℕ
  index_bytes [] = 0
  index_bytes ((key, p) ∷ cache) =
      length (encode key) + length (encode (value p)) + 16 + index_bytes cache

  unfoldable pub publish_depths : List (Pool × PoolState) → MetricsRegistry fl → MetricsRegistry fl
  publish_depths [] m = m
  publish_depths ((p, s) ∷ pools) m =
      publish_depths pools (set_queue_depth fl (value p) (pos s.queue_depth) m)

  unfoldable pub publish_metrics : Router → Router
  unfolding index_bytes publish_depths
  publish_metrics r = elim r.metrics [
    | none ↦ r
    | some m ↦
        let sized = set_prefix_index_size_bytes fl (of_int (pos (index_bytes r.prefix_cache))) m in
        record r { metrics = some (publish_depths r.pools sized) }
  ]

  unfoldable pub admissible : AdmissionPolicy → RequestSpec → PoolState → Bool
  admissible policy spec s =
      if s.healthy
      then (if lt (headroom_used_pct fl s) policy.headroom_pct
          then true
          else is_interactive spec.slo_class && policy.interactive_bypass)
      else false

  -- The first entry that admits the request.
  unfoldable pub first_admissible :
      AdmissionPolicy → RequestSpec → List (Pool × PoolState) → Option Pool
  first_admissible policy spec [] = none
  first_admissible policy spec ((p, s) ∷ entries) =
      if admissible policy spec s then some p else first_admissible policy spec entries

  -- The preference of RAG requests for the tier pool.
  unfoldable pub select_tier : AdmissionPolicy → RequestSpec → List (Pool × PoolState) → Option Pool
  unfolding first_admissible
  select_tier policy spec entries =
      if is_rag spec.workload
      then first_admissible policy spec (sort depth_leb (filter (λ e. is_tier e.0) entries))
      else none

  unfoldable pub select_admissible : Router → RequestSpec → Option Pool
  unfolding select_tier first_admissible
  select_admissible r spec = elim (select_tier r.policy spec (eligible r.pools)) [
    | some p ↦ some p
    | none ↦ first_admissible r.policy spec (sort entry_leb (eligible r.pools))
  ]

  -- The key that a request is looked up by: it is salted for the chosen pool.
  unfoldable pub route_key : Router → RequestSpec → Option Pool → Text
  route_key r spec none = prefix_key r.hexdigest spec (r.salt_for_pool Pool.colocated)
  route_key r spec (some p) = prefix_key r.hexdigest spec (r.salt_for_pool p)

  -- The pool that the cache names for the key, if it is registered and admits the request.
  unfoldable pub cached_pool : Router → RequestSpec → Text → Option Pool
  cached_pool r spec key = elim (Dict.lookup text_discrete key r.prefix_cache) [
    | none ↦ none
    | some p ↦ elim (Dict.lookup pool_discrete p r.pools) [
      | none ↦ none
      | some s ↦ if s.healthy && admissible r.policy spec s then some p else none
    ]
  ]

  -- A lookup of a key that is there moves it to the end, whatever comes of it.
  unfoldable pub touch : Router → Text → Router
  touch r key = record r { prefix_cache = Dict.move_to_end text_discrete key r.prefix_cache }

  unfoldable pub count_no_history : Router → Router
  count_no_history r = record r { metrics = Option.map (inc_no_history fl) r.metrics }

  unfoldable pub remember : Router → Text → Pool → Router
  remember r key p =
      let cache = Dict.set text_discrete key p r.prefix_cache in
      record r {
        prefix_cache = if ltb r.cache_max (length cache) then drop_oldest cache else cache;
      }

  -- What follows a lookup that accepted no cached pool.
  unfoldable pub balance : Router → Text → Option Pool → Router × PoolDecision
  unfolding count_no_history remember
  balance r key none = (count_no_history r, full key)
  balance r key (some p) = (remember (count_no_history r) key p, balanced p key)

  unfoldable pub route_registered : Router → RequestSpec → Router × PoolDecision
  route_registered r spec =
      let chosen = select_admissible r spec in
      let key = route_key r spec chosen in
      elim (cached_pool r spec key) [
        | some p ↦ (touch r key, hit p key)
        | none ↦ balance (touch r key) key chosen
      ]

  -- The test of `not self._pools`.
  unfoldable pub route_among :
      List (Pool × PoolState) → Router → RequestSpec → Router × PoolDecision
  route_among [] r spec = (r, unregistered)
  route_among (_ ∷ _) r spec = route_registered r spec

  unfoldable pub route : Router → RequestSpec → Router × PoolDecision
  unfolding route_among
  route r spec = route_among r.pools r spec
