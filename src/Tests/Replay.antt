-- ===== src/Tests/Replay.antt =====
-- A run of the client over two requests with one slot.
use goodputlab.Prelude.{ℕ, ◌⊎◌, refl, Option, none, some, List, [], ◌∷◌, All, arith}
use goodputlab.Bench.Orchestrator.{routed_pool_for}
use goodputlab.Bench.Orchestrator.Routing.{IsTarget, Reach-IsPlaced}
use goodputlab.Control.Pool.{headroom_used_pct}
use goodputlab.Control.Router.{
  Router, route, route_registered, cached_pool, balance, select_admissible, entry_leb, admissible,
}
use goodputlab.Prelude.Dict
use goodputlab.Prelude.Sort.{sort, filter}
use goodputlab.Core.Trace.{RequestSpec, RequestTelemetry}
use goodputlab.Loadgen.Client.{answered, refused, send_one}
use goodputlab.Loadgen.Replay.{
  Stage, waiting, sending, done, Task, gathered, Run, run_from, entered, released, Step, enter,
  finish, Reach, here, next,
}
use goodputlab.Loadgen.Replay.Progress.{IsEnded, Reach-Advances}
use goodputlab.Loadgen.Replay.Routing.{IsPlaced}
use goodputlab.Loadgen.Replay.Slots.{IsBounded, Reach-IsBounded}
use goodputlab.Prelude.Int.{ℤ, pos, ◌*ℤ◌}
use goodputlab.Prelude.Result.{Result, ok}
use goodputlab.Prelude.Text.{Text, codes}
use goodputlab.Tests.Floats.{milli}
use goodputlab.Tests.Loads.{loads, describe, time, request, reply}
use goodputlab.Tests.Routing.{router, pools-Distinct, chat}

replaying : Unit {0}
unfolding run_from entered released send_one gathered
replaying = tt

-- No router: each request goes without a pool.
abbrev anywhere : RequestSpec → Unit {0} → Unit {0} × Result (Option Text)
anywhere spec u = (u, ok none)

abbrev second : RequestSpec
second = record request { request_id = codes "s" }

abbrev pairs : List (RequestSpec × ℤ)
pairs = (request, pos 4) ∷ (second, pos 9) ∷ []

abbrev task : RequestSpec → ℕ → Stage milli → Task milli
task spec arrival stage = record { spec = spec; arrival = arrival; stage = stage }

abbrev first_result : Result (RequestTelemetry milli)
first_result = (send_one milli loads describe time request 4 none (answered reply) 2).1

abbrev second_result : Result (RequestTelemetry milli)
second_result = (send_one milli loads describe time second 9 none (refused (codes "reset")) 20).1

abbrev state : ℕ → Stage milli → Stage milli → Run milli (Unit {0})
state free a b = record {
  free = free;
  routes = tt;
  tasks = task request 4 a ∷ task second 9 b ∷ [];
}

abbrev Moves : Run milli (Unit {0}) → Run milli (Unit {0}) → Type 0
Moves = Step milli loads describe time anywhere

-- The second request waits for the slot that the first one holds.
halfway :
    Reach milli loads describe time anywhere
      (run_from milli 1 tt pairs)
      2
      (state 1 (done first_result) waiting)
unfolding replaying
halfway =
    next
      (next here (
        enter [] (task second 9 waiting ∷ []) (task request 4 waiting) refl refl (omega arith)
          refl))
      (finish [] (task second 9 waiting ∷ []) (task request 4 (sending none)) none (answered reply)
        2 refl refl refl)

abbrev last : Run milli (Unit {0})
last = state 1 (done first_result) (done second_result)

whole : Reach milli loads describe time anywhere (run_from milli 1 tt pairs) 4 last
unfolding replaying
whole =
    next
      (next halfway (
        enter (task request 4 (done first_result) ∷ []) [] (task second 9 waiting) refl refl
          (omega arith) refl))
      (finish (task request 4 (done first_result) ∷ []) [] (task second 9 (sending none)) none
        (refused (codes "reset")) 20 refl refl refl)

Reach-IsBounded_example : IsBounded milli loads describe time anywhere 1 pairs 4 last
Reach-IsBounded_example = Reach-IsBounded milli loads describe time anywhere 1 pairs tt whole

Reach-Advances_example :
    All (IsEnded milli) (state 1 (done first_result) waiting).tasks
    ⊎ ((v : Run milli (Unit {0})) × Moves (state 1 (done first_result) waiting) v)
Reach-Advances_example =
    Reach-Advances milli loads describe time anywhere 1 pairs tt (omega arith) halfway

-- The router sends the request to the decode pool.
abbrev routed : Run milli (Router milli)
routed = record {
  free = 0;
  routes = (route milli router chat).0;
  tasks = task chat 4 (sending (some (codes "decode"))) ∷ [];
}

dry :
    Reach milli loads describe time
      (routed_pool_for milli)
      (run_from milli 1 router ((chat, pos 4) ∷ []))
      1
      routed
unfolding replaying routed_pool_for route route_registered cached_pool Dict.lookup balance
    select_admissible sort filter entry_leb admissible headroom_used_pct ◌*ℤ◌
dry = next here (enter [] [] (task chat 4 waiting) refl refl (omega arith) refl)

Reach-IsPlaced_example :
    All (IsPlaced milli (IsTarget milli router.pools router.policy)) routed.tasks
Reach-IsPlaced_example =
    Reach-IsPlaced milli loads describe time router 1 ((chat, pos 4) ∷ []) pools-Distinct dry
