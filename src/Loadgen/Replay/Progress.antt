-- ===== src/Loadgen/Replay/Progress.antt =====
-- A run of the client never gets stuck.
use goodputlab.Prelude.{
  ℕ, ◌<◌, ◌≡◌, refl, ap, Option, List, [], ◌∷◌, ◌++◌, All, arith, inl, inr, ◌⊎◌,
}
use goodputlab.Core.Trace.{RequestSpec, RequestTelemetry}
use goodputlab.Loadgen.Client.{refused}
use goodputlab.Loadgen.Replay.{
  Stage, waiting, sending, done, Task, Run, run_from, Step, enter, finish, Reach,
}
use goodputlab.Prelude.Float.{FloatOps}
use goodputlab.Prelude.Int.{ℤ}
use goodputlab.Prelude.Json.{Json}
use goodputlab.Prelude.Result.{Error, Result}
use goodputlab.Prelude.Text.{Text}
use goodputlab.Loadgen.Replay.Tasks.{slots, in_flight}
use goodputlab.Loadgen.Replay.Slots.{Reach-IsRunning}

abbrev pub IsEnded : (fl : FloatOps) → Task fl → Type 0
IsEnded fl t = (r : Result (RequestTelemetry fl)) × (t.stage ≡ done r)

module _ (fl : FloatOps) (loads : Text → Option Json) (describe : Error → Text) (time : ℕ → ℕ)
    {Routes : Type 0} (routed_pool_for : RequestSpec → Routes → Routes × Result (Option Text))
    (max_concurrent : ℕ) (pairs : List (RequestSpec × ℤ)) where
  -- What a run can do next: nothing is left, or some task is in `send_one`, or none is and
  -- some task waits.
  data Finds (tasks : List (Task fl)) : Type 0 where
    over : in_flight fl tasks ≡ 0 → All (IsEnded fl) tasks → Finds tasks
    sends :
        (before after : List (Task fl)) (t : Task fl) (pool : Option Text)
        → tasks ≡ before ++ t ∷ after
        → t.stage ≡ sending pool
        → Finds tasks
    waits :
        (before after : List (Task fl)) (t : Task fl)
        → in_flight fl tasks ≡ 0
        → tasks ≡ before ++ t ∷ after
        → t.stage ≡ waiting
        → Finds tasks

  Finds-step :
      (t : Task fl) (stage : Stage fl) (tasks : List (Task fl))
      → t.stage ≡ stage
      → Finds tasks
      → Finds (t ∷ tasks)
  Finds-step t (sending pool) tasks e f = sends [] tasks t pool refl e
  Finds-step t waiting tasks e (over idle ended) =
      waits [] tasks t (omega (arith, idle, ap (slots fl) e)) refl e
  Finds-step t waiting tasks e (waits before after w idle at first) =
      waits [] tasks t (omega (arith, idle, ap (slots fl) e)) refl e
  Finds-step t waiting tasks e (sends before after w pool at there) =
      sends (t ∷ before) after w pool (ap (λ ts. t ∷ ts) at) there
  Finds-step t (done r) tasks e (over idle ended) =
      over (omega (arith, idle, ap (slots fl) e)) ((r, e), ended)
  Finds-step t (done r) tasks e (waits before after w idle at first) =
      waits (t ∷ before) after w (omega (arith, idle, ap (slots fl) e)) (ap (λ ts. t ∷ ts) at) first
  Finds-step t (done r) tasks e (sends before after w pool at there) =
      sends (t ∷ before) after w pool (ap (λ ts. t ∷ ts) at) there

  find : (tasks : List (Task fl)) → Finds tasks
  find [] = over refl tt
  find (t ∷ tasks) = Finds-step t t.stage tasks refl (find tasks)

  -- With at least one slot a run never gets stuck: whatever steps it has made, either every
  -- task has ended or there is a next step.
  pub Reach-Advances :
      (routes : Routes) {n : ℕ} {u : Run fl Routes}
      → 0 < max_concurrent
      → Reach fl loads describe time routed_pool_for (run_from fl max_concurrent routes pairs) n u
      → All (IsEnded fl) u.tasks
        ⊎ ((v : Run fl Routes) × Step fl loads describe time routed_pool_for u v)
  Reach-Advances routes {u = u} some_slot r =
      let h =
        Reach-IsRunning fl loads describe time routed_pool_for max_concurrent pairs routes r in
      elim (find u.tasks) [
        | over idle ended ↦ inl ended
        | sends before after t pool at there ↦
            inr (_, finish before after t pool (refused []) 0 at there refl)
        | waits before after t idle at first ↦
            inr (_, enter before after t at first (omega (arith, h.slots_kept, idle)) refl)
      ]
