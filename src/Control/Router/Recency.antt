-- ===== src/Control/Router/Recency.antt =====
-- The prefix cache of control/router.py, beside a list without a bound that the decisions of the
-- router alone determine.
use goodputlab.Prelude.{
  ℕ, ◌≡◌, refl, sym, ◌∙◌, ap, subst, Option, none, some, List, [], ◌∷◌, ◌++◌, arith, ltb, length,
  Bool-cases, Option-cases, inl, inr, if◌then◌else◌,
}
use goodputlab.Control.Pool.{Pool, PoolState, pool_discrete}
use goodputlab.Control.Router.{
  Router, AdmissionPolicy, PoolDecision, drop_oldest, init, touch, count_no_history, remember,
  route, register_pool, update_depth, publish_metrics, cached_pool,
}
use goodputlab.Control.Router.Admission.{empty, cached, fresh, refused, route-Outcome, key}
use goodputlab.Control.Router.Cache.{Call, register, depth, publish, send, perform, run}
use goodputlab.Core.Trace.{RequestSpec}
use goodputlab.Obs.{MetricsRegistry}
use goodputlab.Prelude.Dict
use goodputlab.Prelude.Dict.Last.{
  last, promote, promote-Distinct, Tracks, Tracks-last, Tracks-hit, Tracks-set_within_miss,
  Tracks-set_within_hit, set_within, drop_first,
}
use goodputlab.Prelude.Float.{FloatOps}
use goodputlab.Prelude.Int.{ℤ}
use goodputlab.Prelude.Text.{Text, Bytes, text_discrete}

abbrev pub Uses : Type 0
Uses = List (Text × Pool)

-- What a decision adds to the uses, of which the router remembers the last `n` keys: an admitted
-- request uses its key with its pool, and a refused one renews its key if that is remembered.
abbrev pub renew : ℕ → Text → Uses → Uses
renew n k s = elim (Dict.lookup text_discrete k (last n s)) [
  | none ↦ s
  | some p ↦ promote text_discrete k p s
]

abbrev pub used_key : ℕ → PoolDecision → Text → Uses → Uses
used_key n d k s = if d.admitted then promote text_discrete k d.pool s else renew n k s

abbrev pub use_of : ℕ → PoolDecision → Uses → Uses
use_of n d s = elim d.prefix_hash [ none ↦ s | some k ↦ used_key n d k s ]

module _ (fl : FloatOps) where
  -- The uses after some calls.
  unfoldable pub replay : List (Call fl) → Router fl → Uses → Uses
  unfolding perform route
  replay [] r s = s
  replay (send spec ∷ calls) r s =
      replay calls (perform fl (send spec) r) (use_of r.cache_max (route fl r spec).1 s)
  replay (c ∷ calls) r s = replay calls (perform fl c r) s

  -- The cache holds the last uses.
  pub record Remembers (n : ℕ) (r : Router fl) (s : Uses) : Type 0 where
    pub size : r.cache_max ≡ n
    pub distinct : Dict.Distinct s
    pub tracks : Tracks text_discrete n r.prefix_cache s

  drop_first-drop_oldest : (c : Uses) → drop_first text_discrete c ≡ drop_oldest c
  drop_first-drop_oldest [] = refl
  drop_first-drop_oldest (e ∷ c) = refl

  module _ (r : Router fl) (k : Text) where
    touch_absent :
        Dict.lookup text_discrete k r.prefix_cache ≡ none
        → (touch fl r k).prefix_cache ≡ r.prefix_cache
    unfolding touch Dict.move_to_end
    touch_absent e = rw (Dict.move_to_end, e)

    touch_present :
        (p : Pool)
        → Dict.lookup text_discrete k r.prefix_cache ≡ some p
        → (touch fl r k).prefix_cache ≡ Dict.remove text_discrete k r.prefix_cache ++ (k, p) ∷ []
    unfolding touch Dict.move_to_end
    touch_present p e = rw (Dict.move_to_end, e)

    size-touch : (touch fl r k).cache_max ≡ r.cache_max
    unfolding touch
    size-touch = refl

    size-remember : (p : Pool) → (remember fl r k p).cache_max ≡ r.cache_max
    unfolding remember
    size-remember p = refl

    remember-set_within :
        (p : Pool)
        → (remember fl r k p).prefix_cache ≡ set_within text_discrete r.cache_max k p r.prefix_cache
    unfolding remember
    remember-set_within p =
        elim (Bool-cases (ltb r.cache_max (length (Dict.set text_discrete k p r.prefix_cache)))) [
          | inl e ↦ rw e (sym (drop_first-drop_oldest (Dict.set text_discrete k p r.prefix_cache)))
          | inr e ↦ rw e
        ]

  module _ (n : ℕ) (r : Router fl) (s : Uses) (m : Remembers n r s) (k : Text) where
    touch-Remembers :
        (p : Pool)
        → Dict.lookup text_discrete k r.prefix_cache ≡ some p
        → Remembers n (touch fl r k) (promote text_discrete k p s)
    touch-Remembers p e = record {
      size = size-touch r k ∙ m.size;
      distinct = promote-Distinct text_discrete k p s m.distinct;
      tracks =
          rw (touch_present r k p e)
            (Tracks-hit text_discrete n r.prefix_cache s k p m.tracks p m.distinct e);
    }

    renew-Remembers : Remembers n (touch fl r k) (renew n k s)
    renew-Remembers =
        let same = Tracks-last text_discrete n r.prefix_cache s m.tracks in
        elim (Option-cases (Dict.lookup text_discrete k r.prefix_cache)) [
          | inl e ↦
              rw (renew, ← same, e)
                (record {
                  size = size-touch r k ∙ m.size;
                  distinct = m.distinct;
                  tracks = rw (touch_absent r k e) m.tracks;
                })
          | inr (p, e) ↦ rw (renew, ← same, e) (touch-Remembers p e)
        ]

    remember-Tracks :
        (p : Pool)
        → Tracks text_discrete n
            (set_within text_discrete n k p (touch fl r k).prefix_cache)
            (promote text_discrete k p s)
    remember-Tracks p = elim (Option-cases (Dict.lookup text_discrete k r.prefix_cache)) [
      | inl e ↦
          rw (touch_absent r k e)
            (Tracks-set_within_miss text_discrete n r.prefix_cache s k p m.tracks e)
      | inr (q, e) ↦
          rw (touch_present r k q e)
            (Tracks-set_within_hit text_discrete n r.prefix_cache s k p m.tracks q m.distinct e)
    ]

    remember-Remembers :
        (p : Pool) → Remembers n (remember fl (touch fl r k) k p) (promote text_discrete k p s)
    remember-Remembers p =
        let size = size-touch r k ∙ m.size in
        let uses = promote text_discrete k p s in
        let cache = (touch fl r k).prefix_cache in
        record {
          size = size-remember (touch fl r k) k p ∙ size;
          distinct = promote-Distinct text_discrete k p s m.distinct;
          tracks =
              subst (λ c. Tracks text_discrete n c uses)
                (sym (remember-set_within (touch fl r k) k p))
                (subst (λ j. Tracks text_discrete n (set_within text_discrete j k p cache) uses)
                  (sym size) (remember-Tracks p));
        }

  -- The metrics are no part of this.
  count_no_history-Remembers :
      (n : ℕ) (r : Router fl) (s : Uses) → Remembers n r s → Remembers n (count_no_history fl r) s
  unfolding count_no_history
  count_no_history-Remembers n r s m = record {
    size = m.size;
    distinct = m.distinct;
    tracks = m.tracks;
  }

  counted-Remembers :
      (n : ℕ) (r : Router fl) (k : Text) (p : Pool) (s : Uses)
      → Remembers n (remember fl r k p) s
      → Remembers n (remember fl (count_no_history fl r) k p) s
  unfolding count_no_history remember
  counted-Remembers n r k p s m = record { size = m.size; distinct = m.distinct; tracks = m.tracks }

  cached_pool-lookup :
      (r : Router fl) (spec : RequestSpec) (k : Text) (p : Pool)
      → cached_pool fl r spec k ≡ some p
      → Dict.lookup text_discrete k r.prefix_cache ≡ some p
  unfolding cached_pool
  cached_pool-lookup r spec k p h =
      elim (Option-cases (Dict.lookup text_discrete k r.prefix_cache)) [
        | inl e ↦ absurd (ground arith)
        | inr (q, e) ↦ elim (Option-cases (Dict.lookup pool_discrete q r.pools)) [
          | inl e' ↦ absurd (ground arith)
          | inr (t, e') ↦ let same : q ≡ p = ground arith in e ∙ ap some same
        ]
      ]

  route-Remembers :
      (n : ℕ) (r : Router fl) (spec : RequestSpec) (s : Uses)
      → Remembers n r s
      → Remembers n (route fl r spec).0 (use_of n (route fl r spec).1 s)
  route-Remembers n r spec s m = elim (route-Outcome fl r spec) [
    | empty _ e ↦ rw e m
    | cached p h e ↦
        rw e (
          touch-Remembers n r s m (key fl r spec) p (cached_pool-lookup r spec (key fl r spec) p h))
    | fresh p _ _ e ↦ rw e (
        counted-Remembers n (touch fl r (key fl r spec)) (key fl r spec) p _
          (remember-Remembers n r s m (key fl r spec) p))
    | refused _ _ e ↦ rw e (
        count_no_history-Remembers n (touch fl r (key fl r spec)) _
          (renew-Remembers n r s m (key fl r spec)))
  ]

  module _ (n : ℕ) (r : Router fl) (s : Uses) (m : Remembers n r s) where
    register_pool-Remembers : (t : PoolState) → Remembers n (register_pool fl t r) s
    unfolding register_pool
    register_pool-Remembers t = record { size = m.size; distinct = m.distinct; tracks = m.tracks }

    update_depth-Remembers : (p : Pool) (d : ℤ) → Remembers n (update_depth fl p d r) s
    unfolding update_depth
    update_depth-Remembers p d = elim (Option-cases (Dict.lookup pool_discrete p r.pools)) [
      | inl e ↦ rw (e, update_depth) m
      | inr (t, e) ↦
          rw (e, update_depth) (record { size = m.size; distinct = m.distinct; tracks = m.tracks })
    ]

    publish_metrics-Remembers : Remembers n (publish_metrics fl r) s
    unfolding publish_metrics
    publish_metrics-Remembers = elim (Option-cases r.metrics) [
      | inl e ↦ rw (e, publish_metrics) m
      | inr (q, e) ↦
          rw (e, publish_metrics)
            (record { size = m.size; distinct = m.distinct; tracks = m.tracks })
    ]

  run-Remembers :
      (n : ℕ) (calls : List (Call fl)) (r : Router fl) (s : Uses)
      → Remembers n r s
      → Remembers n (run fl calls r) (replay calls r s)
  unfolding run replay perform
  run-Remembers n [] r s m = m
  run-Remembers n (register t ∷ calls) r s m =
      run-Remembers n calls _ s (register_pool-Remembers n r s m t)
  run-Remembers n (depth p d ∷ calls) r s m =
      run-Remembers n calls _ s (update_depth-Remembers n r s m p d)
  run-Remembers n (publish ∷ calls) r s m =
      run-Remembers n calls _ s (publish_metrics-Remembers n r s m)
  run-Remembers n (send spec ∷ calls) r s m = run-Remembers n calls _ _ (
      subst (λ size. Remembers n (route fl r spec).0 (use_of size (route fl r spec).1 s))
        (sym m.size) (route-Remembers n r spec s m))

  -- The prefix cache is a bounded view of the router's own decisions: after any sequence of calls
  -- on a new router, what it holds is the end, of the cache's size, of the list in which each
  -- admitted request moves its key, with the pool it was sent to, to the end, and a refused request
  -- renews its key if that is in the view.
  pub run-last :
      (policy : AdmissionPolicy fl) (size : ℕ) (salt : Pool → Bytes) (digest : Bytes → Text)
      (metrics : Option (MetricsRegistry fl)) (calls : List (Call fl))
      → let r = init fl policy size salt digest metrics in
        (run fl calls r).prefix_cache ≡ last size (replay calls r [])
  unfolding init
  run-last policy size salt digest metrics calls =
      let r = init fl policy size salt digest metrics in
      let start : Remembers size r [] = record {
        size = refl;
        distinct = tt;
        tracks = record { old = []; split = refl; whole = inr refl; bounded = omega arith };
      } in
      let m = run-Remembers size calls r [] start in
      Tracks-last text_discrete size (run fl calls r).prefix_cache (replay calls r []) m.tracks
