-- ===== src/Loadgen/Replay/Routing.antt =====
-- What the routing of single requests says of a whole run of the client.
use goodputlab.Prelude.{ℕ, ◌≡◌, sym, subst, Option, List, ◌∷◌, [], ◌++◌, map, All}
use goodputlab.Core.Trace.{RequestSpec}
use goodputlab.Loadgen.Client.{send_one}
use goodputlab.Loadgen.Replay.{
  waiting, sending, done, Task, task_of, Run, run_from, entered, released, Step, enter, finish,
  Reach, here, next,
}
use goodputlab.Loadgen.Replay.Tasks.{All-moved, All-at, send_one-eq}
use goodputlab.Prelude.Float.{FloatOps}
use goodputlab.Prelude.Int.{ℤ}
use goodputlab.Prelude.Json.{Json}
use goodputlab.Prelude.Result.{Error, Result, ok, raise, Ensures, to_Ensures}
use goodputlab.Prelude.Text.{Text}

-- A task with a pool, and telemetry, have one that fits.
abbrev pub IsPlaced : (fl : FloatOps) → (RequestSpec → Option Text → Type 0) → Task fl → Type 0
IsPlaced fl Fits t = elim t.stage [
  | waiting ↦ Unit
  | sending pool ↦ Fits t.spec pool
  | done r ↦ Ensures (λ x. Fits t.spec x.routed_pool) r
]

-- `Kept` holds of the state that the routing reads, and `Fits` of each pool that it gives.
module _ (fl : FloatOps) (loads : Text → Option Json) (describe : Error → Text) (time : ℕ → ℕ)
    {Routes : Type 0} (routed_pool_for : RequestSpec → Routes → Routes × Result (Option Text))
    (Kept : Routes → Type 0) (Fits : RequestSpec → Option Text → Type 0)
    (keeps : (spec : RequestSpec) (routes : Routes)
      → Kept routes
      → Kept (routed_pool_for spec routes).0
        × Ensures (Fits spec) (routed_pool_for spec routes).1) where
  abbrev Placed : Task fl → Type 0
  Placed = IsPlaced fl Fits

  abbrev pub IsRouted : Run fl Routes → Type 0
  IsRouted u = Kept u.routes × All Placed u.tasks

  entered-IsRouted :
      (s : Run fl Routes) (before after : List (Task fl)) (t : Task fl)
      (r : Routes × Result (Option Text))
      → s.tasks ≡ before ++ t ∷ after
      → Kept r.0 × Ensures (Fits t.spec) r.1
      → IsRouted s
      → IsRouted (entered fl s before t after r)
  unfolding entered
  entered-IsRouted s before after t (routes, ok pool) at (kept, fits) h =
      (kept, All-moved fl Placed before after t (sending pool) fits (subst (All Placed) at h.1))
  entered-IsRouted s before after t (routes, raise e) at (kept, fits) h =
      (kept, All-moved fl Placed before after t (done (raise e)) tt (subst (All Placed) at h.1))

  Step-IsRouted :
      (s u : Run fl Routes)
      → Step fl loads describe time routed_pool_for s u
      → IsRouted s
      → IsRouted u
  unfolding released
  Step-IsRouted s u (enter before after t at first slot e) h =
      subst IsRouted (sym e) (entered-IsRouted s before after t _ at (keeps t.spec s.routes h.0) h)
  Step-IsRouted s u (finish before after t pool answer k at there e) h =
      let r = (send_one fl loads describe time t.spec t.arrival pool answer k).1 in
      let placed : Fits t.spec pool =
        rw there at (All-at fl Placed before after t (subst (All Placed) at h.1)) in
      subst IsRouted (sym e) (
        h.0,
        All-moved fl Placed before after t (done r)
            (to_Ensures (λ x. Fits t.spec x.routed_pool) r
              (λ x sent.
                let answered =
                  send_one-eq fl loads describe time (t.spec, t.arrival) pool answer k x sent in
                subst (Fits t.spec) (sym answered.1) placed))
            (subst (All Placed) at h.1),
      )

  All-task_of : (pairs : List (RequestSpec × ℤ)) → All Placed (map (task_of fl) pairs)
  All-task_of [] = tt
  All-task_of (p ∷ pairs) = (tt, All-task_of pairs)

  pub Reach-IsRouted :
      (max_concurrent : ℕ) (routes : Routes) (pairs : List (RequestSpec × ℤ)) {n : ℕ}
      {u : Run fl Routes}
      → Kept routes
      → Reach fl loads describe time routed_pool_for (run_from fl max_concurrent routes pairs) n u
      → IsRouted u
  unfolding run_from
  Reach-IsRouted max_concurrent routes pairs kept here = (kept, All-task_of pairs)
  Reach-IsRouted max_concurrent routes pairs kept (next r step) =
      Step-IsRouted _ _ step (Reach-IsRouted max_concurrent routes pairs kept r)
