-- ===== src/Control/Autoscaler/Flips.antt =====
-- What one visit of control/autoscaler.py does to the last flip of a pool.
use goodputlab.Prelude.{
  ◌≡◌, ◌≢◌, refl, Bool, true, false, ◌||◌, ◌&&◌, ◌∙◌, List, arith, if◌then◌else◌, Option, some,
  Option-cases, inl, inr,
}
use goodputlab.Prelude.Dict
use goodputlab.Prelude.Float.{FloatOps}
use goodputlab.Prelude.Int.{ℤ, pos}
use goodputlab.Prelude.Result.{Ensures, Ensures-bind, to_Ensures}
use goodputlab.Control.Pid.{PidController, update}
use goodputlab.Control.Pool.{Pool, pool_discrete}
use goodputlab.Control.Autoscaler.{
  PoolTopology, AutoscalerDecision, Readings, PoolAutoscaler, nonzero, raw_delta, settle, drive,
  visit, hold, no_controller,
}

module _ (fl : FloatOps) where
  open fl use {F, of_int, sub, lt}

  module _ (p : Pool) (dwell : F) where
    abbrev pub last_flip : PoolAutoscaler fl → Option F
    last_flip a = Dict.lookup pool_discrete p a.last_flip_ts

    -- What a step does to the last flip of the pool.
    pub record Tracks (a a' : PoolAutoscaler fl) (now : F) (flipped : Bool) : Type 0 where
      pub same_dwell : a'.min_dwell_s ≡ dwell
      pub last : last_flip a' ≡ (if flipped then some now else last_flip a)
      pub spaced : flipped ≡ true → (t : F) → last_flip a ≡ some t → lt (sub now t) dwell ≡ false

    settle-Tracks :
        (a : PoolAutoscaler fl) (r : Readings) (now : F) (delta : ℤ)
        → lt (of_int (pos 0)) dwell ≡ true
        → a.min_dwell_s ≡ dwell
        → Tracks a (settle fl a r now p delta).0 now (nonzero (settle fl a r now p delta).1.delta)
          × ((settle fl a r now p delta).1.pool ≡ p)
    unfolding settle
    settle-Tracks a r now delta on e =
        ground (arith, Dict.lookup-set pool_discrete p p now a.last_flip_ts)

    settle_other :
        (a : PoolAutoscaler fl) (r : Readings) (now : F) (q : Pool) (delta : ℤ)
        → q ≢ p
        → a.min_dwell_s ≡ dwell
        → Tracks a (settle fl a r now q delta).0 now false
          × ((settle fl a r now q delta).1.pool ≡ q)
    unfolding settle
    settle_other a r now q delta ne e =
        ground (arith, Dict.lookup-set pool_discrete q p now a.last_flip_ts)

    pub Tracks-refl :
        (a : PoolAutoscaler fl) (now : F) (b : Bool)
        → a.min_dwell_s ≡ dwell
        → b ≡ false
        → Tracks a a now b
    Tracks-refl a now b e off = ground arith

    pub Tracks-trans :
        (a b c : PoolAutoscaler fl) (now : F) (x y : Bool)
        → Tracks a b now x
        → Tracks b c now y
        → x && y ≡ false
        → Tracks a c now (x || y)
    Tracks-trans a b c now true false h k off = record {
      same_dwell = k.same_dwell;
      last = k.last ∙ h.last;
      spaced = h.spaced;
    }
    Tracks-trans a b c now true true h k off = cc
    Tracks-trans a b c now false true h k off = record {
      same_dwell = k.same_dwell;
      last = k.last;
      spaced = λ on t e. k.spaced on t (h.last ∙ e);
    }
    Tracks-trans a b c now false false h k off = record {
      same_dwell = k.same_dwell;
      last = k.last ∙ h.last;
      spaced = λ on. cc;
    }

    module _ (r : Readings) (now dt : F) where
      abbrev pub TracksSelf : PoolAutoscaler fl → PoolAutoscaler fl × AutoscalerDecision → Type 0
      TracksSelf a s = Tracks a s.0 now (nonzero s.1.delta) × (s.1.pool ≡ p)

      abbrev pub TracksOther :
          PoolAutoscaler fl → Pool → PoolAutoscaler fl × AutoscalerDecision → Type 0
      TracksOther a q s = Tracks a s.0 now false × (s.1.pool ≡ q)

      drive-Ensures :
          (P : PoolAutoscaler fl × AutoscalerDecision → Type 0) (a : PoolAutoscaler fl) (q : Pool)
          (topo : PoolTopology) (c : PidController fl)
          → ((cs : List (Pool × PidController fl)) (delta : ℤ)
              → P (settle fl (record a { controllers = cs }) r now q delta))
          → Ensures P (drive fl a r now dt q topo c)
      unfolding drive
      drive-Ensures P a q topo c h =
          Ensures-bind (λ _. Unit {0}) P (update fl c _ dt) _
            (to_Ensures (λ _. Unit {0}) (update fl c _ dt) (λ _ _. tt))
            (λ s _.
              Ensures-bind (λ _. Unit {0}) P (raw_delta fl _ s.0 s.1) _
                (to_Ensures (λ _. Unit {0}) (raw_delta fl _ s.0 s.1) (λ _ _. tt))
                (λ delta _. h _ _))

      visit-Ensures :
          (P : PoolAutoscaler fl × AutoscalerDecision → Type 0) (a : PoolAutoscaler fl) (q : Pool)
          (topo : PoolTopology)
          → P (a, hold fl q no_controller)
          → ((cs : List (Pool × PidController fl)) (delta : ℤ)
              → P (settle fl (record a { controllers = cs }) r now q delta))
          → Ensures P (visit fl a r now dt q topo)
      unfolding visit
      visit-Ensures P a q topo without with_one =
          elim (Option-cases (Dict.lookup pool_discrete q a.controllers)) [
            | inl e ↦ rw (e, visit) without
            | inr (c, e) ↦ rw (e, visit) (drive-Ensures P a q topo c with_one)
          ]

      pub visit-TracksOther :
          (a : PoolAutoscaler fl) (q : Pool) (topo : PoolTopology)
          → a.min_dwell_s ≡ dwell
          → q ≢ p
          → Ensures (TracksOther a q) (visit fl a r now dt q topo)
      visit-TracksOther a q topo e ne =
          visit-Ensures (TracksOther a q) a q topo (Tracks-refl a now false e refl, refl)
            (λ cs delta. settle_other_with cs delta)
        where
          settle_other_with :
              (cs : List (Pool × PidController fl)) (delta : ℤ)
              → TracksOther a q (settle fl (record a { controllers = cs }) r now q delta)
          settle_other_with cs delta =
              let (t, named) = settle_other (record a { controllers = cs }) r now q delta ne e in
              (record { same_dwell = t.same_dwell; last = t.last; spaced = t.spaced }, named)

      pub visit-TracksSelf :
          (a : PoolAutoscaler fl) (topo : PoolTopology)
          → lt (of_int (pos 0)) dwell ≡ true
          → a.min_dwell_s ≡ dwell
          → Ensures (TracksSelf a) (visit fl a r now dt p topo)
      unfolding nonzero
      visit-TracksSelf a topo on e =
          visit-Ensures (TracksSelf a) a p topo (Tracks-refl a now (nonzero (pos 0)) e refl, refl)
            (λ cs delta. settle_with cs delta)
        where
          settle_with :
              (cs : List (Pool × PidController fl)) (delta : ℤ)
              → TracksSelf a (settle fl (record a { controllers = cs }) r now p delta)
          settle_with cs delta =
              let (t, named) = settle-Tracks (record a { controllers = cs }) r now delta on e in
              (record { same_dwell = t.same_dwell; last = t.last; spaced = t.spaced }, named)
