-- ===== src/Loadgen/Replay/Tasks.antt =====
-- The tasks of a run of the client: counts of their stages, and what a step leaves as it was.
use goodputlab.Prelude.{
  ℕ, ◌+◌, ◌*◌, ◌≡◌, refl, sym, ap, subst, Option, none, some, List, [], ◌∷◌, ◌++◌, map, length, All,
  arith, eq_of_some, not, ◌&&◌, leb,
}
use goodputlab.Core.Trace.{RequestSpec, RequestTelemetry, check_telemetry, falls}
use goodputlab.Loadgen.Client.{Answer, send_one, telemetry, attempt}
use goodputlab.Loadgen.Replay.{
  Stage, waiting, sending, done, Task, task_of, gathered, with_telemetry, moved,
}
use goodputlab.Prelude.Float.{FloatOps}
use goodputlab.Prelude.Int.{ℤ, pos_part}
use goodputlab.Prelude.Json.{Json}
use goodputlab.Prelude.Result.{Error, Result, ok, raise, eq_ok-raise_if, eq_of_ok, value_error}
use goodputlab.Prelude.Text.{Text}

module _ (fl : FloatOps) where
  -- A count of the tasks by their stages.
  abbrev pub tally : (Stage fl → ℕ) → List (Task fl) → ℕ
  tally f [] = 0
  tally f (t ∷ tasks) = f t.stage + tally f tasks

  abbrev pub slots : Stage fl → ℕ
  slots (sending pool) = 1
  slots _ = 0

  -- The requests that are in flight.
  abbrev pub in_flight : List (Task fl) → ℕ
  in_flight = tally slots

  abbrev pub steps_left : Stage fl → ℕ
  steps_left waiting = 2
  steps_left (sending pool) = 1
  steps_left (done r) = 0

  tally-split :
      (f : Stage fl → ℕ) (before after : List (Task fl)) (t : Task fl)
      → tally f (before ++ t ∷ after) ≡ f t.stage + (tally f before + tally f after)
  tally-split f [] after t = omega arith
  tally-split f (b ∷ before) after t = omega (arith, tally-split f before after t)

  pub tally-moved :
      (f : Stage fl → ℕ) {tasks : List (Task fl)} (before after : List (Task fl)) (t : Task fl)
      (old new : Stage fl)
      → tasks ≡ before ++ t ∷ after
      → t.stage ≡ old
      → f old + tally f (moved fl before t after new) ≡ f new + tally f tasks
  tally-moved f before after t old new at there = omega (
    arith,
    ap (tally f) at,
    ap f there,
    tally-split f before after t,
    tally-split f before after (record t { stage = new }),
  )

  -- What a task was made of.
  abbrev pub pair_of : Task fl → RequestSpec × ℕ
  pair_of t = (t.spec, t.arrival)

  pub map-moved :
      (before after : List (Task fl)) (t : Task fl) (stage : Stage fl)
      → map pair_of (moved fl before t after stage) ≡ map pair_of (before ++ t ∷ after)
  map-moved [] after t stage = refl
  map-moved (b ∷ before) after t stage = ap (λ ps. pair_of b ∷ ps) (map-moved before after t stage)

  pub All-moved :
      (P : Task fl → Type 0) (before after : List (Task fl)) (t : Task fl) (stage : Stage fl)
      → P (record t { stage = stage })
      → All P (before ++ t ∷ after)
      → All P (moved fl before t after stage)
  All-moved P [] after t stage p h = (p, h.1)
  All-moved P (b ∷ before) after t stage p h = (h.0, All-moved P before after t stage p h.1)

  pub All-at :
      (P : Task fl → Type 0) (before after : List (Task fl)) (t : Task fl)
      → All P (before ++ t ∷ after)
      → P t
  All-at P [] after t h = h.0
  All-at P (b ∷ before) after t h = All-at P before after t h.1

  check_telemetry-eq : (t x : RequestTelemetry fl) → check_telemetry fl t ≡ ok x → t ≡ x
  unfolding check_telemetry
  check_telemetry-eq t x e =
      let (_, tokens) =
        eq_ok-raise_if (not (leb 1 t.prompt_tokens && leb t.prompt_tokens 200000)) value_error _
          e in
      let (_, status) =
        eq_ok-raise_if (not (leb 100 t.status_code && leb t.status_code 599)) value_error _
          tokens in
      let (_, last) = eq_ok-raise_if (falls none t.per_token_ts_ns) value_error _ status in
      eq_of_ok last

  with_telemetry-eq :
      (stage : Stage fl) (rest : Option (List (RequestTelemetry fl)))
      {all : List (RequestTelemetry fl)}
      → with_telemetry fl stage rest ≡ some all
      → (x : RequestTelemetry fl) × (xs : List (RequestTelemetry fl)) × (stage ≡ done (ok x))
        × (rest ≡ some xs)
        × (all ≡ x ∷ xs)
  with_telemetry-eq (done (ok x)) (some xs) e = (x, xs, refl, refl, sym (eq_of_some e))
  with_telemetry-eq (done (ok x)) none e = cc
  with_telemetry-eq (done (raise r)) rest e = cc
  with_telemetry-eq (sending pool) rest e = cc
  with_telemetry-eq waiting rest e = cc

  pub done_inj : {r q : Result (RequestTelemetry fl)} → ◌≡◌ {A = Stage fl} (done r) (done q) → r ≡ q
  done_inj e = cc

  -- The telemetry of some pool, answer and time of a request's sending.
  module _ (loads : Text → Option Json) (describe : Error → Text) (time : ℕ → ℕ) where
    pub record IsAnswer (p : RequestSpec × ℕ) (x : RequestTelemetry fl) : Type 0 where
      pub pool : Option Text
      pub answer : Answer
      pub n : ℕ
      pub sent : (send_one fl loads describe time p.0 p.1 pool answer n).1 ≡ ok x
      pub request_id : x.request_id ≡ p.0.request_id
      pub routed_pool : x.routed_pool ≡ pool

    pub send_one-eq :
        (p : RequestSpec × ℕ) (pool : Option Text) (answer : Answer) (n : ℕ)
        (x : RequestTelemetry fl)
        → (send_one fl loads describe time p.0 p.1 pool answer n).1 ≡ ok x
        → (x.request_id ≡ p.0.request_id) × (x.routed_pool ≡ pool)
    unfolding send_one
    send_one-eq p pool answer n x e =
        let same =
          check_telemetry-eq
            (telemetry fl p.0 (time (n + 1)) pool
              (attempt fl loads describe time (time (n + 1)) answer (n + 1 + 1)))
            x e in
        (ap (λ y. y.request_id) (sym same), ap (λ y. y.routed_pool) (sym same))

    pub send_one-IsAnswer :
        (p : RequestSpec × ℕ) (pool : Option Text) (answer : Answer) (n : ℕ)
        (x : RequestTelemetry fl)
        → (send_one fl loads describe time p.0 p.1 pool answer n).1 ≡ ok x
        → IsAnswer p x
    send_one-IsAnswer p pool answer n x e =
        let (request_id, routed_pool) = send_one-eq p pool answer n x e in
        record {
          pool = pool;
          answer = answer;
          n = n;
          sent = e;
          request_id = request_id;
          routed_pool = routed_pool;
        }

    -- What a task has at its end.
    abbrev pub IsOwn : Task fl → Type 0
    IsOwn t = (x : RequestTelemetry fl) → t.stage ≡ done (ok x) → IsAnswer (pair_of t) x

    -- One telemetry for each request, in their order.
    abbrev pub AreAnswers : List (RequestSpec × ℕ) → List (RequestTelemetry fl) → Type 0
    AreAnswers [] [] = Unit
    AreAnswers (p ∷ ps) (x ∷ xs) = IsAnswer p x × AreAnswers ps xs
    AreAnswers _ _ = ⊥

    pub gathered-AreAnswers :
        (tasks : List (Task fl)) {xs : List (RequestTelemetry fl)}
        → All IsOwn tasks
        → gathered fl tasks ≡ some xs
        → AreAnswers (map pair_of tasks) xs
    unfolding gathered
    gathered-AreAnswers [] own e = subst (AreAnswers []) (eq_of_some e) tt
    gathered-AreAnswers (t ∷ tasks) own e =
        let (x, ys, ended, rest, whole) = with_telemetry-eq t.stage (gathered fl tasks) e in
        subst (AreAnswers (map pair_of (t ∷ tasks))) (sym whole)
          (own.0 x ended, gathered-AreAnswers tasks own.1 rest)

    pub in_flight-task_of : (ps : List (RequestSpec × ℤ)) → in_flight (map (task_of fl) ps) ≡ 0
    in_flight-task_of [] = refl
    in_flight-task_of (p ∷ ps) = omega (arith, in_flight-task_of ps)

    pub steps_left-task_of :
        (ps : List (RequestSpec × ℤ)) → tally steps_left (map (task_of fl) ps) ≡ 2 * length ps
    steps_left-task_of [] = refl
    steps_left-task_of (p ∷ ps) = omega (arith, steps_left-task_of ps)

    pub map-task_of :
        (ps : List (RequestSpec × ℤ))
        → map pair_of (map (task_of fl) ps) ≡ map (λ p. (p.0, pos_part p.1)) ps
    map-task_of [] = refl
    map-task_of (p ∷ ps) = ap (λ qs. (p.0, pos_part p.1) ∷ qs) (map-task_of ps)

    pub All-task_of : (ps : List (RequestSpec × ℤ)) → All IsOwn (map (task_of fl) ps)
    All-task_of [] = tt
    All-task_of (p ∷ ps) = (λ x e. cc, All-task_of ps)
