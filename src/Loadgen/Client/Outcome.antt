-- ===== src/Loadgen/Client/Outcome.antt =====
-- loadgen/client.py: the telemetry of `send_one`, whatever the server does.
use goodputlab.Prelude.{
  ℕ, ◌+◌, ◌≤◌, ◌≡◌, ◌≢◌, ◌↔◌, ◌⊎◌, inl, inr, refl, sym, ◌∙◌, false, Option, none, some, List, [],
  ◌∷◌, ◌++◌, map, ◌==◌, leb, if◌then◌else◌, All-map, arith, Bool-cases, Option-cases,
}
use goodputlab.Core.Trace.{RequestSpec, RequestTelemetry}
use goodputlab.Core.Trace.Valid.{IsMonotone, check_telemetry-IsMonotone}
use goodputlab.Loadgen.Client.{
  Answer, refused, answered, Response, Ending, closes, protocol_error, breaks, Progress,
  stream_tokens, receive, send_one, attempt, handled, leave, first_time, note, note_all, started,
  telemetry,
}
use goodputlab.Loadgen.Client.Lines.{
  Line-cases, stream-skip, stream-stop, stream-token, stream-fails,
}
use goodputlab.Loadgen.Sse.{TokenEvent, read_line}
use goodputlab.Prelude.Float.{FloatOps}
use goodputlab.Prelude.Json.{Json}
use goodputlab.Prelude.Result.{Error, ok}
use goodputlab.Prelude.Text.{Text}
use mathlib.Core.List.{append_assoc, append-nil}

abbrev pub times : List TokenEvent → List ℕ
times evs = map (λ (ev : TokenEvent). ev.ts_ns) evs

-- A time before every one of a list, and the list.
abbrev Follows : ℕ → List ℕ → Type 0
Follows t ts = IsMonotone (t ∷ ts)

Follows-earlier : (t u : ℕ) (ts : List ℕ) → t ≤ u → Follows u ts → Follows t ts
Follows-earlier t u ts h k = (All-map (λ y (l : u ≤ y). omega (arith, h)) ts k.0, k.1)

append_ne : (xs : List ℕ) (x : ℕ) → xs ++ x ∷ [] ≢ []
append_ne [] x h = cc
append_ne (y ∷ ys) x h = cc

module _ (loads : Text → Option Json) (describe : Error → Text) (time : ℕ → ℕ) where
  -- The events have the times of readings from the n-th on.
  stream_tokens-Follows :
      ((k : ℕ) → time k ≤ time (k + 1))
      → (lines : List Text) (ending : Ending) (n : ℕ)
      → Follows (time n) (times (stream_tokens loads describe time lines ending n).events)
  unfolding stream_tokens
  stream_tokens-Follows up [] closes n = (tt, tt)
  stream_tokens-Follows up [] protocol_error n = (tt, tt)
  stream_tokens-Follows up [] (breaks e) n = (tt, tt)
  stream_tokens-Follows up (raw ∷ lines) ending n = elim (Line-cases (read_line loads raw)) [
    | inl e ↦
        rw (stream-skip loads describe time raw lines ending n e)
          (stream_tokens-Follows up lines ending n)
    | inr (inl e) ↦
        rw (stream-stop loads describe time raw lines ending n e)
          (stream_tokens-Follows up lines ending n)
    | inr (inr (inl (t, e))) ↦
        let later = times (stream_tokens loads describe time lines ending (n + 1)).events in
        let ih =
          Follows-earlier (time n) (time (n + 1)) later (up n)
            (stream_tokens-Follows up lines ending (n + 1)) in
        rw (stream-token loads describe time raw lines ending n e) ((omega arith, ih.0), ih)
    | inr (inr (inr (err, e))) ↦ rw (stream-fails loads describe time raw lines ending n e) (tt, tt)
  ]

module _ (fl : FloatOps) where
  -- There is a time to the first token when there is a token.
  abbrev Matches : Progress fl → Type 0
  Matches p = (p.per_token ≡ []) ↔ (p.ttft_ms ≡ none)

  first_time_ne : (enqueue : ℕ) (o : Option fl.F) (ts : ℕ) → first_time fl enqueue o ts ≢ none
  first_time_ne enqueue none ts h = cc
  first_time_ne enqueue (some t) ts h = cc

  note-Matches : (enqueue : ℕ) (p : Progress fl) (ev : TokenEvent) → Matches (note fl enqueue p ev)
  note-Matches enqueue p ev = (
    (λ h. absurd (append_ne p.per_token ev.ts_ns h)),
    (λ h. absurd (first_time_ne enqueue p.ttft_ms ev.ts_ns h)),
  )

  note_all-Matches :
      (enqueue : ℕ) (p : Progress fl) (evs : List TokenEvent)
      → Matches p
      → Matches (note_all fl enqueue p evs)
  note_all-Matches enqueue p [] h = h
  note_all-Matches enqueue p (ev ∷ evs) h =
      note_all-Matches enqueue (note fl enqueue p ev) evs (note-Matches enqueue p ev)

  note_all-per_token :
      (enqueue : ℕ) (p : Progress fl) (evs : List TokenEvent)
      → (note_all fl enqueue p evs).per_token ≡ p.per_token ++ times evs
  note_all-per_token enqueue p [] = sym (append-nil p.per_token)
  note_all-per_token enqueue p (ev ∷ evs) =
      note_all-per_token enqueue (note fl enqueue p ev) evs
      ∙ append_assoc p.per_token (ev.ts_ns ∷ []) (times evs)

  note_all-status :
      (enqueue : ℕ) (p : Progress fl) (evs : List TokenEvent)
      → (note_all fl enqueue p evs).status ≡ p.status
  note_all-status enqueue p [] = refl
  note_all-status enqueue p (ev ∷ evs) = note_all-status enqueue (note fl enqueue p ev) evs

  module _ (loads : Text → Option Json) (describe : Error → Text) (time : ℕ → ℕ) where
    -- The times of the tokens that a response gives.
    abbrev pub token_times : Response → ℕ → List ℕ
    token_times r n =
        if leb 400 r.status_code
        then []
        else times (stream_tokens loads describe time r.lines r.ending n).events

    -- What the body of the `async with` leaves in the variables.
    abbrev Received : Response → ℕ → Progress fl × Option Text → Type 0
    Received r n q =
        (q.0.status ≡ r.status_code)
        × Matches q.0
        × (q.0.per_token ≡ token_times r n)
        × ((q.1 ≡ none) → (q.0.error ≢ none) ⊎ (q.0.completion_ts ≢ none))
        × ((q.1 ≡ none) → 400 ≤ r.status_code → q.0.error ≢ none)

    receive-Received :
        (enqueue : ℕ) (r : Response) (n : ℕ)
        → Received r n (receive fl loads describe time enqueue r n)
    unfolding receive
    receive-Received enqueue r n =
        let s = stream_tokens loads describe time r.lines r.ending n in
        let start = started fl r.status_code in
        let matches = note_all-Matches enqueue start s.events ((λ _. refl), (λ _. refl)) in
        let tokens = note_all-per_token enqueue start s.events in
        let status = note_all-status enqueue start s.events in
        elim (Bool-cases (leb 400 r.status_code)) [
          | inl e ↦ elim (Option-cases r.read_failure) [
            | inl a ↦
                rw (e, a)
                  (refl, ((λ _. refl), (λ _. refl)), refl, (λ _. inl (λ h. cc)), (λ _ _ h. cc))
            | inr (x, a) ↦
                rw (e, a) (refl, ((λ _. refl), (λ _. refl)), refl, (λ h. absurd cc), (λ h _ _. cc))
          ]
          | inr e ↦ elim (Option-cases s.failure) [
            | inl a ↦
                rw (e, a)
                  (status, matches, tokens, (λ _. inr (λ h. cc)), (λ _ h _. ground (arith, e)))
            | inr (x, a) ↦ rw (e, a) (status, matches, tokens, (λ h. absurd cc), (λ h _ _. cc))
          ]
        ]

    handled-leave :
        (x : Option Text) (q : Progress fl × Option Text)
        → ((handled fl (leave fl x q) ≡ q.0) × (q.1 ≡ none))
          ⊎ ((e : Text) × (handled fl (leave fl x q) ≡ record q.0 {
            status = if q.0.status == 0 then 599 else q.0.status;
            error = some e;
          }))
    handled-leave none (p, none) = inl (refl, refl)
    handled-leave none (p, some e) = inr (e, refl)
    handled-leave (some e) (p, none) = inr (e, refl)
    handled-leave (some e) (p, some f) = inr (e, refl)

    -- What telemetry says of an answer, whose lines are read from the reading `n` on.
    abbrev pub IsAccount : Answer → ℕ → RequestTelemetry fl → Type 0
    IsAccount (refused e) n t =
        (t.status_code ≡ 599) × (t.per_token_ts_ns ≡ []) × (t.error ≡ some e)
    IsAccount (answered r) n t =
        (t.status_code ≡ r.status_code)
        × (t.per_token_ts_ns ≡ token_times r n)
        × (400 ≤ r.status_code → t.error ≢ none)
        × (t.error ≡ none → t.completion_ts_ns ≢ none)

    abbrev pub IsStatus : Answer → Type 0
    IsStatus (refused e) = Unit
    IsStatus (answered r) = (100 ≤ r.status_code) × (r.status_code ≤ 599)

    abbrev HasTtft : RequestTelemetry fl → Type 0
    HasTtft t = (t.per_token_ts_ns ≡ []) ↔ (t.ttft_ms ≡ none)

    attempt-IsAccount :
        (spec : RequestSpec) (enqueue : ℕ) (pool : Option Text) (answer : Answer) (n : ℕ)
        → IsStatus answer
        → let t =
            telemetry fl spec enqueue pool (attempt fl loads describe time enqueue answer n) in
          IsAccount answer n t × HasTtft t
    attempt-IsAccount spec enqueue pool (refused e) n h =
        ((refl, refl, refl), ((λ _. refl), (λ _. refl)))
    attempt-IsAccount spec enqueue pool (answered r) n h =
        let q = receive fl loads describe time enqueue r n in
        let got = receive-Received enqueue r n in
        let nonzero : (q.0.status == 0) ≡ false = ground (arith, got.0, h.0) in
        elim (handled-leave r.exit_failure q) [
          | inl (e, quiet) ↦ rw e (
            (
              got.0,
              got.2,
              (λ above. got.4 quiet above),
              (λ clean. elim (got.3 quiet) [
                | inl failed ↦ absurd (failed clean)
                | inr done ↦ done
              ]),
            ),
            got.1,
          )
          | inr (x, e) ↦ rw (e, nonzero) ((got.0, got.2, (λ _ c. cc), (λ c. absurd cc)), got.1)
        ]

    token_times-Follows :
        ((k : ℕ) → time k ≤ time (k + 1))
        → (r : Response) (n : ℕ) → Follows (time n) (token_times r n)
    token_times-Follows up r n = elim (Bool-cases (leb 400 r.status_code)) [
      | inl e ↦ rw e (tt, tt)
      | inr e ↦ rw e (stream_tokens-Follows loads describe time up r.lines r.ending n)
    ]

    IsAccount-Follows :
        ((k : ℕ) → time k ≤ time (k + 1))
        → (answer : Answer) (n : ℕ) (t : RequestTelemetry fl) → IsAccount answer n t
        → Follows (time n) t.per_token_ts_ns
    IsAccount-Follows up (refused e) n t h = rw h.1 (tt, tt)
    IsAccount-Follows up (answered r) n t h = rw h.1 (token_times-Follows up r n)

    IsAccount-status :
        (answer : Answer) (n : ℕ) (t : RequestTelemetry fl)
        → IsStatus answer
        → IsAccount answer n t
        → (100 ≤ t.status_code) × (t.status_code ≤ 599)
    IsAccount-status (refused e) n t s h = rw h.0 (omega arith, omega arith)
    IsAccount-status (answered r) n t s h = rw h.0 s

    -- For a request with 1 to 200000 prompt tokens, a clock that does not go back and an answer
    -- whose status, if there is one, is from 100 to 599, `send_one` returns telemetry, whatever
    -- fails on the way. A connection that fails gives status 599 with the error and no token; a
    -- response gives its own status and the times of exactly the tokens read, an error if the
    -- status is 400 or more, and a time of completion if there is no error. No token's time is
    -- before the one of the sending or an earlier token's, and there is a time to the first token
    -- just when there is a token.
    pub send_one-IsAccount :
        ((k : ℕ) → time k ≤ time (k + 1))
        → (spec : RequestSpec) → 1 ≤ spec.prompt_tokens
        → spec.prompt_tokens ≤ 200000
        → (arrival : ℕ) (pool : Option Text) (answer : Answer) (n : ℕ) → IsStatus answer
        → (t : RequestTelemetry fl) × ((send_one fl loads describe time spec arrival pool answer
              n).1
            ≡ ok t)
          × IsAccount answer (n + 1 + 1) t
          × HasTtft t
          × IsMonotone (time (n + 1) ∷ t.per_token_ts_ns)
    unfolding send_one
    send_one-IsAccount up spec few many arrival pool answer n status =
        let enqueue = time (n + 1) in
        let p = attempt fl loads describe time enqueue answer (n + 1 + 1) in
        let t = telemetry fl spec enqueue pool p in
        let (account, ttft) = attempt-IsAccount spec enqueue pool answer (n + 1 + 1) status in
        let follows = IsAccount-Follows up answer (n + 1 + 1) t account in
        let (low, high) = IsAccount-status answer (n + 1 + 1) t status account in
        let valid = (check_telemetry-IsMonotone fl t).1 (few, many, low, high, follows.1) in
        (
          t,
          valid,
          account,
          ttft,
          Follows-earlier enqueue (time (n + 1 + 1)) t.per_token_ts_ns (up (n + 1)) follows,
        )
