-- ===== src/Loadgen/Replay/Slots.antt =====
-- A run of the client keeps to its slots, and returns the telemetry in the scheduler's order.
use goodputlab.Prelude.{
  ℕ, suc, ◌+◌, ◌*◌, ◌≤◌, ◌<◌, ◌≡◌, sym, ◌∙◌, ap, subst, Option, none, some, List, ◌∷◌, ◌++◌, map,
  length, All, arith, inl, inr, Option-cases,
}
use goodputlab.Core.Trace.{RequestSpec, RequestTelemetry}
use goodputlab.Loadgen.Client.{Answer, send_one}
use goodputlab.Loadgen.Replay.{
  Stage, waiting, sending, done, Task, gathered, Run, run_from, moved, entered, released, Step,
  enter, finish, Reach, here, next,
}
use goodputlab.Prelude.Float.{FloatOps}
use goodputlab.Prelude.Int.{ℤ, pos_part}
use goodputlab.Prelude.Json.{Json}
use goodputlab.Prelude.Result.{Error, Result, ok, raise}
use goodputlab.Prelude.Text.{Text}
use goodputlab.Loadgen.Replay.Tasks.{
  tally, slots, in_flight, steps_left, tally-moved, pair_of, map-moved, All-moved, done_inj,
  send_one-IsAnswer, IsOwn, AreAnswers, gathered-AreAnswers, in_flight-task_of, steps_left-task_of,
  map-task_of, All-task_of,
}

module _ (fl : FloatOps) (loads : Text → Option Json) (describe : Error → Text) (time : ℕ → ℕ)
    {Routes : Type 0} (routed_pool_for : RequestSpec → Routes → Routes × Result (Option Text))
    (max_concurrent : ℕ) (pairs : List (RequestSpec × ℤ)) where
  -- A run after some steps.
  pub record IsRunning (n : ℕ) (u : Run fl Routes) : Type 0 where
    pub slots_kept : u.free + in_flight fl u.tasks ≡ max_concurrent
    pub steps : n + tally fl (steps_left fl) u.tasks ≤ 2 * length pairs
    pub requests : map (pair_of fl) u.tasks ≡ map (λ p. (p.0, pos_part p.1)) pairs
    pub own : All (IsOwn fl loads describe time) u.tasks

  run_from-IsRunning : (routes : Routes) → IsRunning 0 (run_from fl max_concurrent routes pairs)
  unfolding run_from
  run_from-IsRunning routes = record {
    slots_kept = omega (arith, in_flight-task_of fl loads describe time pairs);
    steps = omega (arith, steps_left-task_of fl loads describe time pairs);
    requests = map-task_of fl loads describe time pairs;
    own = All-task_of fl loads describe time pairs;
  }

  moved-requests :
      (n : ℕ) (s : Run fl Routes) (before after : List (Task fl)) (t : Task fl) (stage : Stage fl)
      → s.tasks ≡ before ++ t ∷ after
      → IsRunning n s
      → map (pair_of fl) (moved fl before t after stage) ≡ map (λ p. (p.0, pos_part p.1)) pairs
  moved-requests n s before after t stage at h =
      map-moved fl before after t stage ∙ ap (map (pair_of fl)) (sym at) ∙ h.requests

  moved-IsOwn :
      (n : ℕ) (s : Run fl Routes) (before after : List (Task fl)) (t : Task fl) (stage : Stage fl)
      → s.tasks ≡ before ++ t ∷ after
      → IsOwn fl loads describe time (record t { stage = stage })
      → IsRunning n s
      → All (IsOwn fl loads describe time) (moved fl before t after stage)
  moved-IsOwn n s before after t stage at own h =
      All-moved fl (IsOwn fl loads describe time) before after t stage own
        (subst (All (IsOwn fl loads describe time)) at h.own)

  entered-IsRunning :
      (n : ℕ) (s : Run fl Routes) (before after : List (Task fl)) (t : Task fl)
      (r : Routes × Result (Option Text))
      → s.tasks ≡ before ++ t ∷ after
      → t.stage ≡ waiting
      → 0 < s.free
      → IsRunning n s
      → IsRunning (suc n) (entered fl s before t after r)
  unfolding entered
  entered-IsRunning n s before after t (routes, ok pool) at first slot h = record {
    slots_kept = omega (
      arith,
      slot,
      h.slots_kept,
      tally-moved fl (slots fl) before after t waiting (sending pool) at first,
    );
    steps = omega (
      arith,
      h.steps,
      tally-moved fl (steps_left fl) before after t waiting (sending pool) at first,
    );
    requests = moved-requests n s before after t (sending pool) at h;
    own = moved-IsOwn n s before after t (sending pool) at (λ x e. cc) h;
  }
  entered-IsRunning n s before after t (routes, raise e) at first slot h = record {
    slots_kept = omega (
      arith,
      h.slots_kept,
      tally-moved fl (slots fl) before after t waiting (done (raise e)) at first,
    );
    steps = omega (
      arith,
      h.steps,
      tally-moved fl (steps_left fl) before after t waiting (done (raise e)) at first,
    );
    requests = moved-requests n s before after t (done (raise e)) at h;
    own = moved-IsOwn n s before after t (done (raise e)) at (λ x e. cc) h;
  }

  released-IsRunning :
      (n : ℕ) (s : Run fl Routes) (before after : List (Task fl)) (t : Task fl) (pool : Option Text)
      (answer : Answer) (k : ℕ)
      → s.tasks ≡ before ++ t ∷ after
      → t.stage ≡ sending pool
      → IsRunning n s
      → IsRunning (suc n) (
          released fl s before t after
            (send_one fl loads describe time t.spec t.arrival pool answer k).1)
  unfolding released
  released-IsRunning n s before after t pool answer k at there h =
      let r = (send_one fl loads describe time t.spec t.arrival pool answer k).1 in
      record {
        slots_kept = omega (
          arith,
          h.slots_kept,
          tally-moved fl (slots fl) before after t (sending pool) (done r) at there,
        );
        steps = omega (
          arith,
          h.steps,
          tally-moved fl (steps_left fl) before after t (sending pool) (done r) at there,
        );
        requests = moved-requests n s before after t (done r) at h;
        own =
            moved-IsOwn n s before after t (done r) at
              (λ x e.
                send_one-IsAnswer fl loads describe time (pair_of fl t) pool answer k x
                  (done_inj fl e))
              h;
      }

  Step-IsRunning :
      (n : ℕ) (s u : Run fl Routes)
      → Step fl loads describe time routed_pool_for s u
      → IsRunning n s
      → IsRunning (suc n) u
  Step-IsRunning n s u (enter before after t at first slot e) h =
      subst (IsRunning (suc n)) (sym e) (entered-IsRunning n s before after t _ at first slot h)
  Step-IsRunning n s u (finish before after t pool answer k at there e) h =
      subst (IsRunning (suc n)) (sym e)
        (released-IsRunning n s before after t pool answer k at there h)

  pub Reach-IsRunning :
      (routes : Routes) {n : ℕ} {u : Run fl Routes}
      → Reach fl loads describe time routed_pool_for (run_from fl max_concurrent routes pairs) n u
      → IsRunning n u
  Reach-IsRunning routes here = run_from-IsRunning routes
  Reach-IsRunning routes (next r step) = Step-IsRunning _ _ _ step (Reach-IsRunning routes r)

  abbrev pub IsReturn : Option (List (RequestTelemetry fl)) → Type 0
  IsReturn none = Unit
  IsReturn (some xs) = AreAnswers fl loads describe time (map (λ p. (p.0, pos_part p.1)) pairs) xs

  pub record IsBounded (n : ℕ) (u : Run fl Routes) : Type 0 where
    pub at_most : in_flight fl u.tasks ≤ max_concurrent
    pub steps : n ≤ 2 * length pairs
    pub returned : IsReturn (gathered fl u.tasks)

  -- However the event loop orders the tasks of a run, there are never more requests in flight
  -- than `max_concurrent`, the run takes at most two steps for each scheduled request, and
  -- when every task has ended without an exception, `gather` returns one telemetry for each
  -- request in the scheduler's order, each from a sending of that very request.
  pub Reach-IsBounded :
      (routes : Routes) {n : ℕ} {u : Run fl Routes}
      → Reach fl loads describe time routed_pool_for (run_from fl max_concurrent routes pairs) n u
      → IsBounded n u
  Reach-IsBounded routes {u = u} r =
      let h = Reach-IsRunning routes r in
      record {
        at_most = omega (arith, h.slots_kept);
        steps = omega (arith, h.steps);
        returned = elim (Option-cases (gathered fl u.tasks)) [
          | inl e ↦ rw e tt
          | inr (xs, e) ↦ rw e (
              subst (λ ps. AreAnswers fl loads describe time ps xs) h.requests
                (gathered-AreAnswers fl loads describe time u.tasks h.own e))
        ];
      }
