-- ===== src/Scripts/AutoscalerLive/Drained.antt =====
-- The live experiment never takes a replica from a busy pool, and keeps within its bounds.
use goodputlab.Prelude.{
  ℕ, zero, suc, ◌≤◌, ◌≡◌, ◌≢◌, refl, subst, true, false, ◌&&◌, List, [], ◌∷◌, arith, if◌then◌else◌,
  Bool-cases, inl, inr, All, All-snoc, max,
}
use goodputlab.Bench.KvScaling.Fit.{index}
use goodputlab.Control.Autoscaler.{
  PoolTopology, AutoscalerDecision, Readings, PoolAutoscaler, get_or_zero, nonzero, tick,
}
use goodputlab.Control.Autoscaler.Decisions.{IsSafe, AllSafe, HasBounds, tick-AllSafe}
use goodputlab.Control.Pool.{Pool, pool_discrete}
use goodputlab.Control.Autoscaler
use goodputlab.Control.Pid
use goodputlab.Prelude.Dict
use goodputlab.Prelude.Float.{FloatOps}
use goodputlab.Prelude.Int.{ℤ, pos, negsuc, pos_part, ◌+ℤ◌, ◌≤ℤ◌, ltb_ℤ}
use goodputlab.Prelude.Result.{ok, Ensures, Ensures-then, Ensures-bind, of_Ensures, eq_of_ok}
use goodputlab.Prelude.Text.{Text}
use goodputlab.Scripts.AutoscalerLive.{
  queue_signal, build_autoscaler, TickRecord, Scrape, Experiment, note, readings_of, topology_of,
  observe, run_phase, run_phases, run_experiment,
}

module _ (fl : FloatOps) where
  -- A tick that takes replicas away has nothing in flight, and leaves 1 to 8 of them.
  pub record IsDrained (r : TickRecord fl) : Type 0 where
    pub idle : ltb_ℤ r.decision_delta (pos 0) ≡ true → r.in_flight_running ≤ℤ pos 0
    pub at_least : 1 ≤ r.replicas_virtual
    pub at_most : r.replicas_virtual ≤ 8

  pub record IsSound (x : Experiment fl) : Type 0 where
    pub clean : x.drain_violations ≡ 0
    pub at_least : 1 ≤ x.replicas
    pub at_most : x.replicas ≤ 8
    pub bounds : HasBounds fl (pos 1) (pos 8) x.scaler
    pub drained : All IsDrained x.records

  get_or_zero-colocated : (n : ℤ) → get_or_zero Pool.colocated ((Pool.colocated, n) ∷ []) ≡ n
  unfolding get_or_zero Dict.lookup pool_discrete
  get_or_zero-colocated n = refl

  nonzero-ne : (d : ℤ) → nonzero d ≡ true → d ≢ pos 0
  unfolding nonzero
  nonzero-ne (pos zero) h = cc
  nonzero-ne (pos (suc n)) h = λ e. cc
  nonzero-ne (negsuc n) h = λ e. cc

  part_bounds :
      (z : ℤ) → pos 1 ≤ℤ z → z ≤ℤ pos 8 → (1 ≤ max 1 (pos_part z)) × (max 1 (pos_part z) ≤ 8)
  part_bounds (pos n) low high = omega (arith, low, high)
  part_bounds (negsuc n) low high = absurd (omega (arith, low))

  -- The next number of replicas is in bounds.
  next_bounds :
      (replicas : ℕ) (delta : ℤ)
      → 1 ≤ replicas
      → replicas ≤ 8
      → (delta ≢ pos 0 → pos 1 ≤ℤ pos replicas +ℤ delta)
      → (delta ≢ pos 0 → pos replicas +ℤ delta ≤ℤ pos 8)
      → (1 ≤ (if nonzero delta then max 1 (pos_part (pos replicas +ℤ delta)) else replicas))
        × ((if nonzero delta then max 1 (pos_part (pos replicas +ℤ delta)) else replicas) ≤ 8)
  next_bounds replicas delta least most low high = elim (Bool-cases (nonzero delta)) [
    | inl moves ↦
        let ne = nonzero-ne delta moves in
        rw moves (part_bounds (pos replicas +ℤ delta) (low ne) (high ne))
    | inr stays ↦ rw stays (least, most)
  ]

  calm_of :
      (delta running : ℤ)
      → (ltb_ℤ delta (pos 0) ≡ true → running ≤ℤ pos 0)
      → (ltb_ℤ delta (pos 0) && ltb_ℤ (pos 0) running) ≡ false
  calm_of delta running idle = elim (Bool-cases (ltb_ℤ delta (pos 0))) [
    | inl down ↦ ground (arith, idle down)
    | inr up ↦ ground (arith, up)
  ]

  module _ (round_3 : fl.F → fl.F) (tick_s : fl.F) (target : ℕ) where
    note-IsSound :
        (phase : Text) (scrape : Scrape fl) (signal : ℤ × ℤ) (x : Experiment fl)
        (scaler : PoolAutoscaler fl) (d : AutoscalerDecision) (topo : PoolTopology)
        → topo.replicas ≡ x.replicas
        → IsSafe (pos 1) (pos 8) (readings_of fl round_3 tick_s target signal) Pool.colocated topo d
        → HasBounds fl (pos 1) (pos 8) scaler
        → IsSound x
        → IsSound (note fl round_3 tick_s target phase scrape signal x scaler d)
    unfolding note
    note-IsSound phase scrape (waiting, running) x scaler d topo same safe bounds h =
        let idle : ltb_ℤ d.delta (pos 0) ≡ true → running ≤ℤ pos 0 =
          λ down. subst (λ n. n ≤ℤ pos 0) (get_or_zero-colocated running) (safe.idle down) in
        let calm = calm_of d.delta running idle in
        let (least, most) =
          next_bounds x.replicas d.delta h.at_least h.at_most
            (subst (λ n. d.delta ≢ pos 0 → pos 1 ≤ℤ pos n +ℤ d.delta) same safe.at_least)
            (subst (λ n. d.delta ≢ pos 0 → pos n +ℤ d.delta ≤ℤ pos 8) same safe.at_most) in
        record {
          clean = rw calm (omega (arith, h.clean));
          at_least = least;
          at_most = most;
          bounds = bounds;
          drained =
              All-snoc IsDrained _ x.records h.drained
                (record { idle = idle; at_least = least; at_most = most });
        }

    -- The only decision of a tick over one pool.
    head-IsSafe :
        (r : Readings) (p : Pool) (topo : PoolTopology) (ds : List AutoscalerDecision)
        {d : AutoscalerDecision}
        → AllSafe (pos 1) (pos 8) r ((p, topo) ∷ []) ds
        → index ds (pos 0) ≡ ok d
        → IsSafe (pos 1) (pos 8) r p topo d
    head-IsSafe r p topo [] safe e = elim safe [ ]
    head-IsSafe r p topo (d ∷ []) safe e =
        subst (IsSafe (pos 1) (pos 8) r p topo) (eq_of_ok e) safe.0
    head-IsSafe r p topo (d ∷ d' ∷ ds) safe e = elim safe.1 [ ]

    observe-IsSound :
        (phase : Text) (scrape : Scrape fl) (x : Experiment fl)
        → IsSound x
        → Ensures IsSound (observe fl round_3 tick_s target phase scrape x)
    unfolding observe
    observe-IsSound phase scrape x h =
        Ensures-then IsSound (queue_signal fl scrape.parsed) _ (λ signal _.
          let r = readings_of fl round_3 tick_s target signal in
          let topology = topology_of fl round_3 tick_s target x in
          Ensures-then IsSound (tick fl r scrape.now tick_s topology x.scaler) _ (λ s ticked.
            Ensures-then IsSound (index s.1 (pos 0)) _ (λ d first.
              let in_order : x.scaler.min_replicas ≤ℤ x.scaler.max_replicas =
                rw (h.bounds.min_eq, h.bounds.max_eq) (omega arith) in
              let Told = λ (lo hi : ℤ). AllSafe lo hi r topology s.1 × HasBounds fl lo hi s.0 in
              let told = tick-AllSafe fl r scrape.now tick_s topology x.scaler in_order ticked in
              let (safe, kept) =
                subst (λ lo. Told lo (pos 8)) h.bounds.min_eq
                  (subst (λ hi. Told x.scaler.min_replicas hi) h.bounds.max_eq told) in
              note-IsSound phase scrape signal x s.0 d _ refl
                (head-IsSafe r Pool.colocated _ s.1 safe first) kept h)))

    run_phase-IsSound :
        (phase : Text) (scrapes : List (Scrape fl)) (x : Experiment fl)
        → IsSound x
        → Ensures IsSound (run_phase fl round_3 tick_s target phase scrapes x)
    unfolding run_phase
    run_phase-IsSound phase [] x h = h
    run_phase-IsSound phase (scrape ∷ scrapes) x h =
        Ensures-bind IsSound IsSound (observe fl round_3 tick_s target phase scrape x) _
          (observe-IsSound phase scrape x h) (λ y k. run_phase-IsSound phase scrapes y k)

    run_phases-IsSound :
        (phases : List (Text × List (Scrape fl))) (x : Experiment fl)
        → IsSound x
        → Ensures IsSound (run_phases fl round_3 tick_s target phases x)
    unfolding run_phases
    run_phases-IsSound [] x h = h
    run_phases-IsSound ((phase, scrapes) ∷ phases) x h =
        Ensures-bind IsSound IsSound (run_phase fl round_3 tick_s target phase scrapes x) _
          (run_phase-IsSound phase scrapes x h) (λ y k. run_phases-IsSound phases y k)

    build_autoscaler-HasBounds :
        (min_dwell_s : fl.F)
        → Ensures (HasBounds fl (pos 1) (pos 8)) (build_autoscaler fl min_dwell_s)
    unfolding build_autoscaler Autoscaler.init
    build_autoscaler-HasBounds min_dwell_s =
        Ensures-then (HasBounds fl (pos 1) (pos 8)) (Pid.init fl _ _ _) _ (λ pid _.
          elim (Bool-cases (fl.lt min_dwell_s (fl.of_int (pos 0)))) [
            | inl early ↦ rw early tt
            | inr fine ↦ rw fine (record { min_eq = refl; max_eq = refl })
          ])

    -- Whatever the server's metrics and the clocks show, an experiment that comes to its end has
    -- seen no drain violation: each tick that took a replica away read that nothing was in flight.
    -- The replicas were from 1 to 8 all along.
    pub run_experiment-IsSound :
        (min_dwell_s : fl.F) (phases : List (Text × List (Scrape fl))) {x : Experiment fl}
        → run_experiment fl round_3 tick_s target min_dwell_s phases ≡ ok x
        → IsSound x
    unfolding run_experiment
    run_experiment-IsSound min_dwell_s phases e =
        of_Ensures IsSound (run_experiment fl round_3 tick_s target min_dwell_s phases)
          (Ensures-bind (HasBounds fl (pos 1) (pos 8)) IsSound (build_autoscaler fl min_dwell_s) _
            (build_autoscaler-HasBounds min_dwell_s)
            (λ scaler bounds. run_phases-IsSound phases _ (record {
              clean = refl;
              at_least = omega arith;
              at_most = omega arith;
              bounds = bounds;
              drained = tt;
            })))
          e
