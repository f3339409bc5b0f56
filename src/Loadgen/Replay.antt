-- ===== src/Loadgen/Replay.antt =====
-- loadgen/client.py, `run`, and loadgen/replay.py, which calls it: one task for each scheduled
-- request, under a semaphore. A run is a state with its tasks in the scheduler's order, and the
-- event loop chooses any task that can go on. `routed_pool_for` reads and changes a state of its
-- own and may raise; without one it leaves that state and gives no pool. A request that is sent
-- comes to its end, by the timeout of httpx at the latest.
pub mod Tasks
pub mod Slots
pub mod Progress
pub mod Routing
use goodputlab.Prelude.{ℕ, zero, suc, ◌-◌, ◌<◌, ◌≡◌, Option, none, some, List, [], ◌∷◌, ◌++◌, map}
use goodputlab.Core.Trace.{RequestSpec, RequestTelemetry}
use goodputlab.Loadgen.Client.{Answer, send_one}
use goodputlab.Prelude.Float.{FloatOps}
use goodputlab.Prelude.Int.{ℤ, pos_part}
use goodputlab.Prelude.Json.{Json}
use goodputlab.Prelude.Result.{Error, Result, ok, raise}
use goodputlab.Prelude.Text.{Text}

module _ (fl : FloatOps) where
  -- Where `_one` stands: before the semaphore, in `send_one` with its pool, or at its end.
  pub data Stage : Type 0 where
    waiting : Stage
    sending : Option Text → Stage
    done : Result (RequestTelemetry fl) → Stage

  pub record Task : Type 0 where
    pub spec : RequestSpec
    pub arrival : ℕ
    pub stage : Stage

  -- A time before the clock's zero is as good as zero: there is no wait for either.
  abbrev pub task_of : RequestSpec × ℤ → Task
  task_of (spec, ts) = record { spec = spec; arrival = pos_part ts; stage = waiting }

  -- The telemetry that `gather` returns once every task has ended without an exception.
  abbrev pub with_telemetry :
      Stage → Option (List (RequestTelemetry fl)) → Option (List (RequestTelemetry fl))
  with_telemetry (done (ok x)) (some xs) = some (x ∷ xs)
  with_telemetry _ _ = none

  unfoldable pub gathered : List Task → Option (List (RequestTelemetry fl))
  gathered [] = some []
  gathered (t ∷ tasks) = with_telemetry t.stage (gathered tasks)

  abbrev pub moved : List Task → Task → List Task → Stage → List Task
  moved before t after stage = before ++ record t { stage = stage } ∷ after

  -- `free` counts the free slots of the semaphore.
  pub record Run (Routes : Type 0) : Type 0 where
    pub free : ℕ
    pub routes : Routes
    pub tasks : List Task

  module _ {Routes : Type 0} where
    -- The tasks of all pairs that the scheduler yields.
    unfoldable pub run_from : ℕ → Routes → List (RequestSpec × ℤ) → Run Routes
    run_from max_concurrent routes pairs = record {
      free = max_concurrent;
      routes = routes;
      tasks = map task_of pairs;
    }

    -- A task takes a slot and asks for its pool; an exception gives the slot back.
    unfoldable pub entered :
        Run Routes → List Task → Task → List Task → Routes × Result (Option Text) → Run Routes
    entered s before t after (routes, ok pool) = record s {
      free = s.free - 1;
      routes = routes;
      tasks = moved before t after (sending pool);
    }
    entered s before t after (routes, raise e) = record s {
      routes = routes;
      tasks = moved before t after (done (raise e));
    }

    -- A task ends and gives its slot back.
    unfoldable pub released :
        Run Routes → List Task → Task → List Task → Result (RequestTelemetry fl) → Run Routes
    released s before t after r = record s {
      free = suc s.free;
      tasks = moved before t after (done r);
    }

    module _ (loads : Text → Option Json) (describe : Error → Text) (time : ℕ → ℕ)
        (routed_pool_for : RequestSpec → Routes → Routes × Result (Option Text)) where
      pub data Step (s u : Run Routes) : Type 0 where
        enter :
            (before after : List Task) (t : Task)
            → s.tasks ≡ before ++ t ∷ after
            → t.stage ≡ waiting
            → 0 < s.free
            → u ≡ entered s before t after (routed_pool_for t.spec s.routes)
            → Step s u
        finish :
            (before after : List Task) (t : Task) (pool : Option Text) (answer : Answer) (n : ℕ)
            → s.tasks ≡ before ++ t ∷ after
            → t.stage ≡ sending pool
            → u
              ≡ released s before t after
                  (send_one fl loads describe time t.spec t.arrival pool answer n).1
            → Step s u

      -- The states that a run comes to, with the number of steps.
      pub data Reach (s : Run Routes) : ℕ → Run Routes → Type 0 where
        here : Reach s 0 s
        next : {n : ℕ} {t u : Run Routes} → Reach s n t → Step t u → Reach s (suc n) u
