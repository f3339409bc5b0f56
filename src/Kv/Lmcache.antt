-- ===== src/Kv/Lmcache.antt =====
-- kv/lmcache_client.py: the statistics of a tier and the in-memory LRU client. The store is an
-- ordered dictionary from prefix hashes to sizes, the oldest entry first.
pub mod Accounting
pub mod Calls
use goodputlab.Prelude.{
  ℕ, zero, suc, ◌+◌, ◌*◌, ◌≤◌, ◌≡◌, refl, Bool, true, false, Option, none, some, List, [], ◌∷◌,
  if◌then◌else◌, ltb, leb, ◌==◌, length,
}
use goodputlab.Prelude.Dict
use goodputlab.Prelude.Float.{FloatOps}
use goodputlab.Prelude.Int.{ℤ, pos, ◌+ℤ◌, ◌-ℤ◌}
use goodputlab.Prelude.Result.{Result, ok, raise, key_error, ◌>>=◌}
use goodputlab.Prelude.Text.{Text, codes, text_discrete}

abbrev pub Store : Type 0
Store = List (Text × ℕ)

-- The `while` loop of `store`: the oldest entries go until there is room. `popitem` raises on an
-- empty store. The results are the store, the bytes in use and the evictions.
unfoldable pub make_room : ℕ → Store → ℤ → ℕ → Result (Store × ℤ × ℕ)
make_room capacity [] used evictions =
    if leb capacity 0 then raise key_error else ok ([], used, evictions)
make_room capacity ((k, old_size) ∷ entries) used evictions =
    if leb capacity (suc (length entries))
    then make_room capacity entries (used -ℤ pos old_size) (evictions + 1)
    else ok ((k, old_size) ∷ entries, used, evictions)

module _ (fl : FloatOps) where
  open fl use {F, of_int, true_div, sub, mul, lt}

  pub record KvStats : Type 0 where
    pub tier : Text
    pub hit_rate : F
    pub hits : ℕ
    pub misses : ℕ
    pub capacity_bytes : ℕ
    pub used_bytes : ℤ
    pub eviction_count : ℕ

  -- `max(0.0, x)`: the second value only if it is greater.
  abbrev max_zero : F → F
  max_zero x = if lt (of_int (pos 0)) x then x else of_int (pos 0)

  unfoldable pub capacity_free_pct : KvStats → F
  capacity_free_pct s =
      if leb s.capacity_bytes 0
      then of_int (pos 0)
      else max_zero (
          mul (of_int (pos 100))
            (sub (of_int (pos 1)) (true_div s.used_bytes (pos s.capacity_bytes))))

  pub record MockLmcacheClient : Type 0 where
    pub capacity : ℕ
    pub hit_probability : F
    pub store_ : Store
    pub hits : ℕ
    pub misses : ℕ
    pub evictions : ℕ
    pub used_bytes : ℤ
    pub tier_name : Text

  unfoldable pub init : ℕ → F → MockLmcacheClient
  init capacity hit_probability = record {
    capacity = capacity;
    hit_probability = hit_probability;
    store_ = [];
    hits = 0;
    misses = 0;
    evictions = 0;
    used_bytes = pos 0;
    tier_name = codes "mock-lmcache";
  }

  -- `draw` is what `random.random()` returns; it is drawn only for a hash that is stored.
  unfoldable pub lookup : Text → F → MockLmcacheClient → MockLmcacheClient × Bool
  lookup hash draw c =
      if Dict.contains text_discrete hash c.store_
      then (if lt draw c.hit_probability
          then (
            record c { store_ = Dict.move_to_end text_discrete hash c.store_; hits = c.hits + 1 },
            true,
          )
          else (
            record c {
              store_ = Dict.move_to_end text_discrete hash c.store_;
              misses = c.misses + 1;
            },
            false,
          ))
      else (record c { misses = c.misses + 1 }, false)

  unfoldable pub stats : MockLmcacheClient → KvStats
  stats c = record {
    tier = c.tier_name;
    hit_rate =
        if ltb 0 (c.hits + c.misses)
        then true_div (pos c.hits) (pos (c.hits + c.misses))
        else of_int (pos 0);
    hits = c.hits;
    misses = c.misses;
    capacity_bytes = c.capacity * 4096;
    used_bytes = c.used_bytes;
    eviction_count = c.evictions;
  }

  unfoldable pub evict : Text → MockLmcacheClient → MockLmcacheClient
  evict hash c = elim (Dict.lookup text_discrete hash c.store_) [
    | none ↦ c
    | some size ↦ record c {
      store_ = Dict.remove text_discrete hash c.store_;
      used_bytes = c.used_bytes -ℤ pos size;
    }
  ]

  unfoldable pub store : Text → ℕ → MockLmcacheClient → Result MockLmcacheClient
  store hash size c =
      if Dict.contains text_discrete hash c.store_
      then ok (record c { store_ = Dict.move_to_end text_discrete hash c.store_ })
      else do
        (kept, used, evictions) ← make_room c.capacity c.store_ c.used_bytes c.evictions
        ok (record c {
          store_ = Dict.set text_discrete hash size kept;
          used_bytes = used +ℤ pos size;
          evictions = evictions;
        })

  unfoldable pub set_tier_name : Text → MockLmcacheClient → MockLmcacheClient
  set_tier_name name c = record c { tier_name = name }
