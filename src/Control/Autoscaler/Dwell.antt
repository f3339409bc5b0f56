-- ===== src/Control/Autoscaler/Dwell.antt =====
-- The minimum dwell of control/autoscaler.py over a sequence of ticks: two flips of one pool.
use goodputlab.Prelude.{
  ◌≡◌, ◌≢◌, refl, sym, ap, subst, ite, if_pos, if_neg, Bool, true, false, ◌||◌, ◌∙◌, List, [], ◌∷◌,
  arith, if◌then◌else◌, Option, none, some, Option-cases, inl, inr, All,
}
use goodputlab.Prelude.Dict
use goodputlab.Prelude.Float.{FloatOps}
use goodputlab.Prelude.Int.{pos}
use goodputlab.Prelude.Result.{Result, ok, ◌>>=◌, Ensures, Ensures-bind, of_Ensures}
use goodputlab.Control.Pool.{Pool, pool_discrete}
use goodputlab.Control.Autoscaler.Flips.{
  Tracks, Tracks-refl, Tracks-trans, last_flip, TracksSelf, TracksOther, visit-TracksOther,
  visit-TracksSelf,
}
use goodputlab.Control.Autoscaler.{
  PoolTopology, AutoscalerDecision, Readings, PoolAutoscaler, nonzero, visit, tick,
}

module _ (fl : FloatOps) where
  open fl use {F, of_int, sub, lt}

  pub record TickInput : Type 0 where
    pub readings : Readings
    pub now : F
    pub dt : F
    pub topology : List (Pool × PoolTopology)

  -- Whether a tick's decisions flip the pool.
  unfoldable pub flips : Pool → List AutoscalerDecision → Bool
  flips p [] = false
  flips p (d ∷ ds) = ite (pool_discrete d.pool p) (nonzero d.delta || flips p ds) (flips p ds)

  -- Ticks one after the other, and the times at which they flipped the pool.
  unfoldable pub flip_times : Pool → List TickInput → PoolAutoscaler fl → Result (List F)
  flip_times p [] a = ok []
  flip_times p (i ∷ is) a = do
    (a', ds) ← tick fl i.readings i.now i.dt i.topology a
    times ← flip_times p is a'
    ok (if flips p ds then i.now ∷ times else times)

  -- Each time lies at least `dwell` behind the one before it, by the program's own test.
  abbrev pub IsSpaced : F → Option F → List F → Type 0
  IsSpaced dwell last [] = Unit
  IsSpaced dwell none (t ∷ ts) = IsSpaced dwell (some t) ts
  IsSpaced dwell (some s) (t ∷ ts) = (lt (sub t s) dwell ≡ false) × IsSpaced dwell (some t) ts

  module _ (p : Pool) (dwell : F) where
    abbrev Absent : List (Pool × PoolTopology) → Type 0
    Absent = All (λ e. p ≢ e.0)

    abbrev TracksTick : PoolAutoscaler fl → F → PoolAutoscaler fl × List AutoscalerDecision → Type 0
    TracksTick a now s = Tracks fl p dwell a s.0 now (flips p s.1)

    abbrev Untouched : PoolAutoscaler fl → F → PoolAutoscaler fl × List AutoscalerDecision → Type 0
    Untouched a now s = Tracks fl p dwell a s.0 now false × (flips p s.1 ≡ false)

    flips_other :
        (d : AutoscalerDecision) (ds : List AutoscalerDecision) {q : Pool}
        → d.pool ≡ q
        → q ≢ p
        → flips p (d ∷ ds) ≡ flips p ds
    unfolding flips
    flips_other d ds e ne = if_neg (pool_discrete d.pool p) (λ same. ne (sym e ∙ same)) _ _

    flips_self :
        (d : AutoscalerDecision) (ds : List AutoscalerDecision)
        → d.pool ≡ p
        → flips p (d ∷ ds) ≡ (nonzero d.delta || flips p ds)
    unfolding flips
    flips_self d ds e = if_pos (pool_discrete d.pool p) e _ _

    module _ (r : Readings) (now dt : F) where
      tick-Absent :
          (topology : List (Pool × PoolTopology)) (a : PoolAutoscaler fl)
          → a.min_dwell_s ≡ dwell
          → Absent topology
          → Ensures (Untouched a now) (tick fl r now dt topology a)
      unfolding tick flips
      tick-Absent [] a e far = (Tracks-refl fl p dwell a now false e refl, refl)
      tick-Absent ((q, topo) ∷ topology) a e far =
          Ensures-bind (TracksOther fl p dwell r now dt a q) (Untouched a now)
            (visit fl a r now dt q topo) _
            (visit-TracksOther fl p dwell r now dt a q topo e (λ h. far.0 (sym h)))
            (λ s one.
              Ensures-bind (Untouched s.0 now) (Untouched a now) (tick fl r now dt topology s.0) _
                (tick-Absent topology s.0 one.0.same_dwell far.1)
                (λ t rest. (
                  Tracks-trans fl p dwell a s.0 t.0 now false false one.0 rest.0 refl,
                  flips_other s.1 t.1 one.1 (λ h. far.0 (sym h)) ∙ rest.1,
                )))

      tick_self :
          (topo : PoolTopology) (topology : List (Pool × PoolTopology)) (a : PoolAutoscaler fl)
          → lt (of_int (pos 0)) dwell ≡ true
          → a.min_dwell_s ≡ dwell
          → Absent topology
          → Ensures (TracksTick a now) (tick fl r now dt ((p, topo) ∷ topology) a)
      unfolding tick
      tick_self topo topology a on e far =
          Ensures-bind (TracksSelf fl p dwell r now dt a) (TracksTick a now)
            (visit fl a r now dt p topo) _ (visit-TracksSelf fl p dwell r now dt a topo on e)
            (λ s one.
              Ensures-bind (Untouched s.0 now) (TracksTick a now) (tick fl r now dt topology s.0) _
                (tick-Absent topology s.0 one.0.same_dwell far)
                (λ t rest.
                  rw (flips_self s.1 t.1 one.1, rest.1)
                    (Tracks-trans fl p dwell a s.0 t.0 now (nonzero s.1.delta) false one.0 rest.0
                      (ground arith))))

      pub tick-TracksTick :
          (topology : List (Pool × PoolTopology)) (a : PoolAutoscaler fl)
          → lt (of_int (pos 0)) dwell ≡ true
          → a.min_dwell_s ≡ dwell
          → Dict.Distinct topology
          → Ensures (TracksTick a now) (tick fl r now dt topology a)
      unfolding tick flips
      tick-TracksTick [] a on e far = Tracks-refl fl p dwell a now false e refl
      tick-TracksTick ((q, topo) ∷ topology) a on e far = elim (pool_discrete q p) [
        | yes same ↦
            subst (λ x. Ensures (TracksTick a now) (tick fl r now dt ((x, topo) ∷ topology) a))
              (sym same)
              (tick_self topo topology a on e (subst (λ x. All (λ t. x ≢ t.0) topology) same far.0))
        | no ne ↦
            Ensures-bind (TracksOther fl p dwell r now dt a q) (TracksTick a now)
              (visit fl a r now dt q topo) _ (visit-TracksOther fl p dwell r now dt a q topo e ne)
              (λ s one.
                Ensures-bind (TracksTick s.0 now) (TracksTick a now) (tick fl r now dt topology s.0)
                  _ (tick-TracksTick topology s.0 on one.0.same_dwell far.1)
                  (λ t rest.
                    rw (flips_other s.1 t.1 one.1 ne)
                      (Tracks-trans fl p dwell a s.0 t.0 now false (flips p t.1) one.0 rest refl)))
      ]

    IsSpaced-next :
        (a b : PoolAutoscaler fl) (now : F) (flipped : Bool) (times : List F)
        → Tracks fl p dwell a b now flipped
        → IsSpaced dwell (last_flip fl p dwell b) times
        → IsSpaced dwell (last_flip fl p dwell a) (if flipped then now ∷ times else times)
    IsSpaced-next a b now true times t h = elim (Option-cases (last_flip fl p dwell a)) [
      | inl e ↦ rw e (rw t.last at h)
      | inr (s, e) ↦ rw e (t.spaced refl s e, rw t.last at h)
    ]
    IsSpaced-next a b now false times t h = rw (sym t.last) h

    flip_times-IsSpaced_within :
        (is : List TickInput) (a : PoolAutoscaler fl)
        → lt (of_int (pos 0)) dwell ≡ true
        → a.min_dwell_s ≡ dwell
        → All (λ i. Dict.Distinct i.topology) is
        → Ensures (IsSpaced dwell (last_flip fl p dwell a)) (flip_times p is a)
    unfolding flip_times
    flip_times-IsSpaced_within [] a on e far = tt
    flip_times-IsSpaced_within (i ∷ is) a on e far =
        Ensures-bind (TracksTick a i.now) (IsSpaced dwell (last_flip fl p dwell a))
          (tick fl i.readings i.now i.dt i.topology a) _
          (tick-TracksTick i.readings i.now i.dt i.topology a on e far.0)
          (λ s t.
            Ensures-bind (IsSpaced dwell (last_flip fl p dwell s.0))
              (IsSpaced dwell (last_flip fl p dwell a)) (flip_times p is s.0) _
              (flip_times-IsSpaced_within is s.0 on t.same_dwell far.1)
              (λ times h. IsSpaced-next a s.0 i.now (flips p s.1) times t h))

-- With a positive `min_dwell_s`, the flips of one pool over any sequence of ticks of a fresh
-- autoscaler lie at least `min_dwell_s` apart: for two successive times the test
-- `now - last < min_dwell_s` of the program fails. The keys of each tick's topology are distinct.
pub flip_times-IsSpaced :
    (fl : FloatOps) (p : Pool) (is : List (TickInput fl)) (a : PoolAutoscaler fl)
    {times : List fl.F}
    → fl.lt (fl.of_int (pos 0)) a.min_dwell_s ≡ true
    → a.last_flip_ts ≡ []
    → All (λ i. Dict.Distinct i.topology) is
    → flip_times fl p is a ≡ ok times
    → IsSpaced fl a.min_dwell_s none times
unfolding Dict.lookup
flip_times-IsSpaced fl p is a {times} on fresh far e =
    subst (λ last. IsSpaced fl a.min_dwell_s last times) (ap (Dict.lookup pool_discrete p) fresh)
      (of_Ensures (IsSpaced fl a.min_dwell_s (last_flip fl p a.min_dwell_s a))
        (flip_times fl p is a) (flip_times-IsSpaced_within fl p a.min_dwell_s is a on refl far) e)
