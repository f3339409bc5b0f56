-- ===== src/Loadgen/Client.antt =====
-- loadgen/client.py: what `VllmHttpClient` sends, and the telemetry that it makes of an answer.
-- The k-th reading of `time.perf_counter_ns` is `time k`. What httpx does is a value: an exception
-- before there is a status, or a response with its lines and the way in which they end. An
-- exception is the text that the client writes of it.
pub mod Lines
pub mod Outcome
use goodputlab.Prelude.{
  ℕ, zero, suc, ◌+◌, ◌-◌, Bool, true, false, Option, none, some, List, [], ◌∷◌, ◌++◌, ◌==◌, leb,
  if◌then◌else◌, length, take,
}
use goodputlab.Core.Trace.{RequestSpec, RequestTelemetry, check_telemetry}
use goodputlab.Loadgen.Sse.{TokenEvent, Stream, parse_sse_lines}
use goodputlab.Prelude.Float.{FloatOps}
use goodputlab.Prelude.Int.{pos, sub_ℕ}
use goodputlab.Prelude.Json.{Json, boolean, integer, real, text, arr, nil, cons, obj, end, field}
use goodputlab.Prelude.Result.{Error, Result}
use goodputlab.Prelude.Text.{Text, codes, decimal}

-- How the lines of a response end.
pub data Ending : Type 0 where
  closes protocol_error : Ending
  breaks : Text → Ending

-- `page` is the text of the whole body. Reading it, and leaving the `async with`, may raise.
pub record Response : Type 0 where
  pub status_code : ℕ
  pub lines : List Text
  pub ending : Ending
  pub page : Text
  pub read_failure : Option Text
  pub exit_failure : Option Text

pub data Answer : Type 0 where
  refused : Text → Answer
  answered : Response → Answer

unfoldable pub build_payload : Text → RequestSpec → Json
build_payload model spec = obj (
    field (codes "model") (text model) (
      field (codes "messages")
        (arr (
          cons
            (obj (
              field (codes "role") (text (codes "user"))
                (field (codes "content") (text spec.prompt_text) end)))
            nil))
        (field (codes "max_tokens") (integer (pos spec.output_tokens)) (
          field (codes "stream") (boolean true)
            (field (codes "temperature") (real true (codes "0.0")) end)))))

-- What an asynchronous generator leaves: its events, the next reading, and its exception.
pub record Streamed : Type 0 where
  pub events : List TokenEvent
  pub next : ℕ
  pub failure : Option Text

-- After one line's parser, which reads the clock at most once: `list` lets its exception through.
abbrev pub carry_on : (Error → Text) → Stream → ℕ → (ℕ → Streamed) → Streamed
carry_on describe parsed n go =
    let later = n + (1 - length parsed.clock) in
    let rest = go later in
    elim parsed.failure [
      | some e ↦ record { events = []; next = later; failure = some (describe e) }
      | none ↦ record rest { events = parsed.events ++ rest.events }
    ]

module _ (loads : Text → Option Json) (describe : Error → Text) (time : ℕ → ℕ) where
  -- The loop over the lines, each with a parser of its own.
  unfoldable pub stream_tokens : List Text → Ending → ℕ → Streamed
  unfolding parse_sse_lines
  stream_tokens [] (breaks e) n = record { events = []; next = n; failure = some e }
  stream_tokens [] _ n = record { events = []; next = n; failure = none }
  stream_tokens (line ∷ lines) ending n =
      carry_on describe (parse_sse_lines loads (line ∷ []) (time n ∷ [])) n
        (stream_tokens lines ending)

module _ (fl : FloatOps) where
  open fl use {F, of_int, lt, true_div}

  -- The sleep that `_wait_until` asks for, if it sleeps; `max` returns its first argument
  -- unless the second is greater.
  unfoldable pub wait_until : ℕ → ℕ → Option F
  wait_until arrival now =
      let delay = true_div (sub_ℕ arrival now) (pos 1000000000) in
      let least = true_div (pos 1) (pos 1000) in
      if leb arrival now then none else some (if lt delay least then least else delay)

  -- The variables of `send_one`.
  pub record Progress : Type 0 where
    pub per_token : List ℕ
    pub ttft_ms : Option F
    pub completion_ts : Option ℕ
    pub status : ℕ
    pub error : Option Text

  abbrev pub started : ℕ → Progress
  started status = record {
    per_token = [];
    ttft_ms = none;
    completion_ts = none;
    status = status;
    error = none;
  }

  abbrev pub first_time : ℕ → Option F → ℕ → Option F
  first_time enqueue none ts = some (true_div (sub_ℕ ts enqueue) (pos 1000000))
  first_time enqueue (some t) ts = some t

  abbrev pub note : ℕ → Progress → TokenEvent → Progress
  note enqueue p ev = record p {
    ttft_ms = first_time enqueue p.ttft_ms ev.ts_ns;
    per_token = p.per_token ++ ev.ts_ns ∷ [];
  }

  abbrev pub note_all : ℕ → Progress → List TokenEvent → Progress
  note_all enqueue p [] = p
  note_all enqueue p (ev ∷ evs) = note_all enqueue (note enqueue p ev) evs

  abbrev pub leave : Option Text → Progress × Option Text → Progress × Option Text
  leave none (p, e) = (p, e)
  leave (some e) (p, _) = (p, some e)

  -- The two handlers do the same.
  abbrev pub handled : Progress × Option Text → Progress
  handled (p, none) = p
  handled (p, some e) = record p {
    status = if p.status == 0 then 599 else p.status;
    error = some e;
  }

  abbrev pub telemetry : RequestSpec → ℕ → Option Text → Progress → RequestTelemetry fl
  telemetry spec enqueue pool p = record {
    request_id = spec.request_id;
    prompt_tokens = spec.prompt_tokens;
    enqueue_ts_ns = enqueue;
    ttft_ms = p.ttft_ms;
    per_token_ts_ns = p.per_token;
    completion_ts_ns = p.completion_ts;
    status_code = p.status;
    error = p.error;
    routed_pool = pool;
  }

  module _ (loads : Text → Option Json) (describe : Error → Text) (time : ℕ → ℕ) where
    -- The body of the `async with`, with its exception.
    unfoldable pub receive : ℕ → Response → ℕ → Progress × Option Text
    unfolding stream_tokens
    receive enqueue r n =
        let s = stream_tokens loads describe time r.lines r.ending n in
        let p = note_all enqueue (started r.status_code) s.events in
        if leb 400 r.status_code
        then elim r.read_failure [
          | some e ↦ (started r.status_code, some e)
          | none ↦ (
            record (started r.status_code) {
              error =
                  some (codes "HTTP " ++ decimal r.status_code ++ codes ": " ++ take 200 r.page);
            },
            none,
          )
        ]
        else elim s.failure [
          | some e ↦ (p, some e)
          | none ↦ (record p { completion_ts = some (time s.next) }, none)
        ]

    abbrev pub attempt : ℕ → Answer → ℕ → Progress
    attempt enqueue (refused e) n = handled (started 0, some e)
    attempt enqueue (answered r) n = handled (leave r.exit_failure (receive enqueue r n))

    -- The sleep before the request is sent, if there is one, and the telemetry. The reading `n` is
    -- that of `_wait_until`.
    unfoldable pub send_one :
        RequestSpec → ℕ → Option Text → Answer → ℕ → Option F × Result (RequestTelemetry fl)
    unfolding wait_until check_telemetry receive
    send_one spec arrival pool answer n =
        let enqueue = time (n + 1) in
        (
          wait_until arrival (time n),
          check_telemetry fl (telemetry spec enqueue pool (attempt enqueue answer (n + 1 + 1))),
        )
