-- ===== src/Kv/Lmcache/Accounting.antt =====
-- The invariant of the LRU client in kv/lmcache_client.py and its eviction order.
use goodputlab.Prelude.{
  ℕ, suc, ◌+◌, ◌≤◌, ◌<◌, ◌≡◌, refl, ap, true, false, some, [], ◌∷◌, ◌++◌, if◌then◌else◌, leb,
  length, arith, Option-cases, inl, inr,
}
use goodputlab.Prelude.Dict
use goodputlab.Prelude.Dict.Recent.{move_to_end-Distinct, length-move_to_end, remove-Distinct}
use goodputlab.Prelude.Float.{FloatOps}
use goodputlab.Prelude.Int.{ℤ, pos, pos_part, neg_part, ◌+ℤ◌, ◌-ℤ◌, int_laws}
use goodputlab.Prelude.Result.{ok}
use goodputlab.Prelude.Text.{Text, text_discrete}
use goodputlab.Kv.Lmcache.{Store, make_room, MockLmcacheClient, lookup, evict, store, set_tier_name}

abbrev pub total : Store → ℕ
total [] = 0
total ((_, size) ∷ s) = size + total s

pub total-append : (s t : Store) → total (s ++ t) ≡ total s + total t
total-append [] t = omega arith
total-append ((_, size) ∷ s) t = omega (arith, total-append s t)

total-remove :
    (k : Text) (size : ℕ) (s : Store)
    → Dict.lookup text_discrete k s ≡ some size
    → total (Dict.remove text_discrete k s) + size ≡ total s
unfolding Dict.lookup Dict.remove
total-remove k size [] h = cc
total-remove k size ((j, w) ∷ s) h = ground (arith, total-remove k size s)

pub total-move_to_end :
    (k : Text) (s : Store) → total (Dict.move_to_end text_discrete k s) ≡ total s
unfolding Dict.move_to_end
total-move_to_end k s = elim (Option-cases (Dict.lookup text_discrete k s)) [
  | inl e ↦ rw (e, Dict.move_to_end) refl
  | inr (v, e) ↦
      rw (e, Dict.move_to_end)
        (omega
          (arith, total-append (Dict.remove text_discrete k s) ((k, v) ∷ []), total-remove k v s e))
]

-- The loop on a store that holds no more than the capacity drops the oldest entry if it is full,
-- and nothing else; it does not raise.
abbrev pub room : ℕ → Store → ℤ → ℕ → Store × ℤ × ℕ
room capacity [] used evictions = ([], used, evictions)
room capacity ((k, size) ∷ s) used evictions =
    if leb capacity (suc (length s))
    then (s, used -ℤ pos size, evictions + 1)
    else ((k, size) ∷ s, used, evictions)

make_room_fits :
    (capacity : ℕ) (s : Store) (used : ℤ) (evictions : ℕ)
    → length s < capacity
    → make_room capacity s used evictions ≡ ok (s, used, evictions)
unfolding make_room
make_room_fits capacity [] used evictions h = ground arith
make_room_fits capacity (e ∷ s) used evictions h = ground arith

make_room-room :
    (capacity : ℕ) (s : Store) (used : ℤ) (evictions : ℕ)
    → 0 < capacity
    → length s ≤ capacity
    → make_room capacity s used evictions ≡ ok (room capacity s used evictions)
unfolding make_room
make_room-room capacity [] used evictions pos_cap h = ground arith
make_room-room capacity ((k, size) ∷ s) used evictions pos_cap h =
    ground (arith, make_room_fits capacity s (used -ℤ pos size) (evictions + 1))

module _ (fl : FloatOps) where
  pub record IsValid (c : MockLmcacheClient fl) : Type 0 where
    pub distinct : Dict.Distinct c.store_
    pub positive : 0 < c.capacity
    pub bounded : length c.store_ ≤ c.capacity
    pub used : c.used_bytes ≡ pos (total c.store_)

  module _ (c : MockLmcacheClient fl) (v : IsValid c) where
    pub lookup-IsValid : (hash : Text) (draw : fl.F) → IsValid (lookup fl hash draw c).0
    unfolding lookup
    lookup-IsValid hash draw = ground (
      arith,
      move_to_end-Distinct text_discrete hash c.store_ v.distinct,
      length-move_to_end text_discrete hash c.store_,
      total-move_to_end hash c.store_,
    )

    pub evict-IsValid : (hash : Text) → IsValid (evict fl hash c)
    unfolding evict
    evict-IsValid hash = elim (Option-cases (Dict.lookup text_discrete hash c.store_)) [
      | inl e ↦ rw (e, evict) v
      | inr (size, e) ↦
          rw (e, evict)
            (record {
              distinct = remove-Distinct text_discrete hash c.store_ v.distinct;
              positive = v.positive;
              bounded =
                  omega (arith, Dict.length-remove text_discrete hash size c.store_ e, v.bounded);
              used = omega (
                int_laws,
                ap pos_part v.used,
                ap neg_part v.used,
                total-remove hash size c.store_ e,
              );
            })
    ]

    pub set_tier_name-IsValid : (name : Text) → IsValid (set_tier_name fl name c)
    unfolding set_tier_name
    set_tier_name-IsValid name = record {
      distinct = v.distinct;
      positive = v.positive;
      bounded = v.bounded;
      used = v.used;
    }

    -- What `store` makes of a hash that is not there: the new entry behind those that stay.
    abbrev pub stored : Text → ℕ → MockLmcacheClient fl
    stored hash size =
        let (kept, used, evictions) = room c.capacity c.store_ c.used_bytes c.evictions in
        record c {
          store_ = Dict.set text_discrete hash size kept;
          used_bytes = used +ℤ pos size;
          evictions = evictions;
        }

    pub store_present :
        (hash : Text) (size : ℕ)
        → Dict.contains text_discrete hash c.store_ ≡ true
        → store fl hash size c
          ≡ ok (record c { store_ = Dict.move_to_end text_discrete hash c.store_ })
    unfolding store
    store_present hash size h = rw h refl

    pub store_absent :
        (hash : Text) (size : ℕ)
        → Dict.contains text_discrete hash c.store_ ≡ false
        → store fl hash size c ≡ ok (stored hash size)
    unfolding store
    store_absent hash size h =
        rw (h, make_room-room c.capacity c.store_ c.used_bytes c.evictions v.positive v.bounded)
          refl
