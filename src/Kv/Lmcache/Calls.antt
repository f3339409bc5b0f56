-- ===== src/Kv/Lmcache/Calls.antt =====
-- Sequences of calls on the LRU client of kv/lmcache_client.py, and what `store` evicts.
use goodputlab.Prelude.{
  ℕ, suc, ◌+◌, ◌≤◌, ◌<◌, ◌≡◌, refl, sym, ap, ◌∙◌, none, List, [], ◌∷◌, ◌++◌, if◌then◌else◌, leb,
  length, length-append, arith, Bool-cases, Option-cases, inl, inr,
}
use goodputlab.Prelude.Dict
use goodputlab.Prelude.Dict.Recent.{set-absent, move_to_end-Distinct, length-move_to_end}
use goodputlab.Prelude.Float.{FloatOps}
use goodputlab.Prelude.Int.{ℤ, pos, ◌-ℤ◌, int_laws}
use goodputlab.Prelude.Result.{Result, ok, ◌>>=◌}
use goodputlab.Prelude.Text.{Text, text_discrete}
use goodputlab.Kv.Lmcache.{Store, MockLmcacheClient, init, lookup, evict, store, set_tier_name}
use goodputlab.Kv.Lmcache.Accounting.{
  total, total-append, total-move_to_end, room, IsValid, lookup-IsValid, evict-IsValid,
  set_tier_name-IsValid, stored, store_present, store_absent,
}

-- The entries that stay when a new hash is stored: all but the oldest if the store is full.
abbrev pub survivors : ℕ → Store → Store
survivors capacity [] = []
survivors capacity (e ∷ s) = if leb capacity (suc (length s)) then s else e ∷ s

room-survivors :
    (capacity : ℕ) (s : Store) (used : ℤ) (evictions : ℕ)
    → (room capacity s used evictions).0 ≡ survivors capacity s
room-survivors capacity [] used evictions = refl
room-survivors capacity (e ∷ s) used evictions = ground arith

room-evictions :
    (capacity : ℕ) (s : Store) (used : ℤ) (evictions : ℕ)
    → (room capacity s used evictions).2 + length (survivors capacity s) ≡ evictions + length s
room-evictions capacity [] used evictions = omega arith
room-evictions capacity (e ∷ s) used evictions = ground arith

room-used :
    (capacity : ℕ) (s : Store) (used : ℤ) (evictions : ℕ)
    → used ≡ pos (total s)
    → (room capacity s used evictions).1 ≡ pos (total (survivors capacity s))
unfolding ◌-ℤ◌
room-used capacity [] used evictions e = e
room-used capacity (x ∷ s) used evictions e = ground arith

survivors-Distinct :
    (capacity : ℕ) (s : Store) → Dict.Distinct s → Dict.Distinct (survivors capacity s)
survivors-Distinct capacity [] h = tt
survivors-Distinct capacity (e ∷ s) h = elim (Bool-cases (leb capacity (suc (length s)))) [
  | inl full ↦ rw full h.1
  | inr free ↦ rw free h
]

length-survivors :
    (capacity : ℕ) (s : Store)
    → 0 < capacity
    → length s ≤ capacity
    → length (survivors capacity s) < capacity
length-survivors capacity [] h k = omega arith
length-survivors capacity (e ∷ s) h k = ground arith

lookup-survivors :
    (k : Text) (capacity : ℕ) (s : Store)
    → Dict.lookup text_discrete k s ≡ none
    → Dict.lookup text_discrete k (survivors capacity s) ≡ none
unfolding Dict.lookup
lookup-survivors k capacity [] h = refl
lookup-survivors k capacity (e ∷ s) h = ground arith

module _ (fl : FloatOps) where
  module _ (c : MockLmcacheClient fl) (v : IsValid fl c) (hash : Text) (size : ℕ) where
    -- A new hash goes behind all the entries. A full store gives up its oldest entry and counts
    -- one eviction; no other entry goes, and the call does not raise.
    pub store-survivors :
        Dict.lookup text_discrete hash c.store_ ≡ none
        → (c' : MockLmcacheClient fl) × (store fl hash size c ≡ ok c')
          × (c'.store_ ≡ survivors c.capacity c.store_ ++ (hash, size) ∷ [])
          × (c'.evictions + length (survivors c.capacity c.store_) ≡ c.evictions + length c.store_)
    unfolding Dict.contains
    store-survivors h = (
      stored fl c v hash size,
      store_absent fl c v hash size (rw (h, Dict.contains) refl),
      rw (room-survivors)
          (set-absent text_discrete hash size _ (lookup-survivors hash c.capacity c.store_ h)),
      room-evictions c.capacity c.store_ c.used_bytes c.evictions,
    )

    stored-IsValid :
        Dict.lookup text_discrete hash c.store_ ≡ none → IsValid fl (stored fl c v hash size)
    stored-IsValid h =
        let kept = survivors c.capacity c.store_ in
        let added = kept ++ (hash, size) ∷ [] in
        let e : Dict.set text_discrete hash size
              (room c.capacity c.store_ c.used_bytes c.evictions).0
            ≡ added =
          rw room-survivors (
            set-absent text_discrete hash size kept
              (lookup-survivors hash c.capacity c.store_ h)) in
        record {
          distinct = rw room-survivors (
              Dict.set-Distinct text_discrete hash size kept
                (survivors-Distinct c.capacity c.store_ v.distinct));
          positive = v.positive;
          bounded = rw e (
              omega (
                arith,
                length-append kept ((hash, size) ∷ []),
                length-survivors c.capacity c.store_ v.positive v.bounded,
              ));
          used =
              rw (e, room-used c.capacity c.store_ c.used_bytes c.evictions v.used)
                (omega (int_laws, total-append kept ((hash, size) ∷ [])));
        }

    present-IsValid :
        IsValid fl (record c { store_ = Dict.move_to_end text_discrete hash c.store_ })
    present-IsValid = record {
      distinct = move_to_end-Distinct text_discrete hash c.store_ v.distinct;
      positive = v.positive;
      bounded = omega (arith, length-move_to_end text_discrete hash c.store_, v.bounded);
      used = v.used ∙ ap pos (sym (total-move_to_end hash c.store_));
    }

    store_total : (c' : MockLmcacheClient fl) × (store fl hash size c ≡ ok c') × IsValid fl c'
    unfolding Dict.contains
    store_total = elim (Option-cases (Dict.lookup text_discrete hash c.store_)) [
      | inl e ↦ (
        stored fl c v hash size,
        store_absent fl c v hash size (rw (e, Dict.contains) refl),
        stored-IsValid e,
      )
      | inr (n, e) ↦ (
        record c { store_ = Dict.move_to_end text_discrete hash c.store_ },
        store_present fl c v hash size (rw (e, Dict.contains) refl),
        present-IsValid,
      )
    ]

  -- The calls of the client.
  pub data Call : Type 0 where
    look : Text → fl.F → Call
    put : Text → ℕ → Call
    forget : Text → Call
    rename : Text → Call

  unfoldable pub perform : Call → MockLmcacheClient fl → Result (MockLmcacheClient fl)
  unfolding lookup store evict set_tier_name
  perform (look hash draw) c = ok (lookup fl hash draw c).0
  perform (put hash size) c = store fl hash size c
  perform (forget hash) c = ok (evict fl hash c)
  perform (rename name) c = ok (set_tier_name fl name c)

  unfoldable pub run : List Call → MockLmcacheClient fl → Result (MockLmcacheClient fl)
  unfolding perform
  run [] c = ok c
  run (call ∷ calls) c = do c' ← perform call c; run calls c'

  perform_total :
      (call : Call) (c : MockLmcacheClient fl)
      → IsValid fl c
      → (c' : MockLmcacheClient fl) × (perform call c ≡ ok c') × IsValid fl c'
  unfolding perform
  perform_total (look hash draw) c v =
      ((lookup fl hash draw c).0, refl, lookup-IsValid fl c v hash draw)
  perform_total (put hash size) c v = store_total c v hash size
  perform_total (forget hash) c v = (evict fl hash c, refl, evict-IsValid fl c v hash)
  perform_total (rename name) c v =
      (set_tier_name fl name c, refl, set_tier_name-IsValid fl c v name)

  run_total :
      (calls : List Call) (c : MockLmcacheClient fl)
      → IsValid fl c
      → (c' : MockLmcacheClient fl) × (run calls c ≡ ok c') × IsValid fl c'
  unfolding run
  run_total [] c v = (c, refl, v)
  run_total (call ∷ calls) c v =
      let (c', e, v') = perform_total call c v in rw e (run_total calls c' v')

  -- Any sequence of calls on a new client with a positive capacity returns; the store then holds
  -- distinct hashes, no more of them than the capacity, and `used_bytes` is the sum of their sizes.
  pub run_ok-IsValid :
      (capacity : ℕ) (hit_probability : fl.F) (calls : List Call)
      → 0 < capacity
      → (c : MockLmcacheClient fl) × (run calls (init fl capacity hit_probability) ≡ ok c)
        × IsValid fl c
  unfolding init
  run_ok-IsValid capacity hit_probability calls h =
      run_total calls _ (record { distinct = tt; positive = h; bounded = omega arith; used = refl })
