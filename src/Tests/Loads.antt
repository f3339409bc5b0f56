-- ===== src/Tests/Loads.antt =====
-- The load generator on a response of two tokens, and on a trace of two requests.
use goodputlab.Prelude.{
  ℕ, ◌+◌, ◌≡◌, ◌↔◌, refl, false, Option, none, some, List, [], ◌∷◌, ◌++◌, arith,
}
use goodputlab.Core.Trace.{RequestSpec, RequestTelemetry, Trace, chat, interactive, poisson}
use goodputlab.Core.Trace.Valid.{IsMonotone}
use goodputlab.Loadgen.Arrival.{PoissonArrival, poisson_schedule}
use goodputlab.Loadgen.Arrival.Order.{IsInOrder, poisson_schedule-IsInOrder}
use goodputlab.Loadgen.Client.{answered, Response, closes, send_one, stream_tokens}
use goodputlab.Loadgen.Client.Lines.{stream_tokens-parse_sse_lines, readings, Same}
use goodputlab.Loadgen.Client.Outcome.{send_one-IsAccount, IsAccount}
use goodputlab.Loadgen.Sse.{
  Token, parse_sse_lines, read_line, data_line, payload_line, choice_line, channel,
}
use goodputlab.Loadgen.Sse.Frame.{parse_sse_lines-frames, frames, done_line, chunk, stamped}
use goodputlab.Prelude.Int.{ℤ, pos}
use goodputlab.Prelude.Json.{
  Json, null, text, arr, cons, obj, field, truthy, get_or, get_field, first,
}
use goodputlab.Prelude.Result.{Error, ok}
use goodputlab.Prelude.Text.{Text, codes, text_discrete, strip, is_space}
use goodputlab.Tests.Floats.{milli}

abbrev said : Text → Token
said s = record { content = text s; finish_reason = null; reasoning = false }

-- A codec for the chunks of one channel: the content in braces.
abbrev dumps : Json → Text
dumps (obj (field _ (arr (cons (obj (field _ (obj (field _ (text s) _)) _)) _)) _)) =
    b'{' ∷ (s ++ b'}' ∷ [])
dumps _ = codes "null"

abbrev before_brace : Text → Text
before_brace [] = []
before_brace (c ∷ []) = []
before_brace (c ∷ d ∷ s) = c ∷ before_brace (d ∷ s)

abbrev pub loads : Text → Option Json
loads [] = none
loads (c ∷ s) = some (chunk (said (before_brace s)))

abbrev tokens : List Token
tokens = said (codes "to") ∷ said (codes "do") ∷ []

parse_sse_lines-frames_example :
    parse_sse_lines loads (frames dumps tokens ++ (done_line ∷ [])) (5 ∷ 8 ∷ 9 ∷ [])
    ≡ record { events = stamped tokens (5 ∷ 8 ∷ 9 ∷ []); clock = 9 ∷ []; failure = none }
unfolding truthy
parse_sse_lines-frames_example =
    parse_sse_lines-frames loads dumps tokens (5 ∷ 8 ∷ 9 ∷ []) []
      ((refl, ((codes "to", refl), refl)), ((refl, ((codes "do", refl), refl)), tt)) (omega arith)

abbrev lines : List Text
lines = frames dumps (said (codes "to") ∷ []) ++ (done_line ∷ (10 ∷ []) ∷ [])

abbrev pub describe : Error → Text
describe e = codes "error"

-- A clock that advances by 2.
abbrev pub time : ℕ → ℕ
time k = k + k

stream_tokens-parse_sse_lines_example :
    Same describe
      (stream_tokens loads describe time lines closes 4)
      (parse_sse_lines loads lines (readings time 4 5))
unfolding read_line data_line payload_line choice_line channel truthy get_or get_field first
    text_discrete strip is_space
stream_tokens-parse_sse_lines_example =
    stream_tokens-parse_sse_lines loads describe time lines 4 5
      ((λ h. cc), ((λ h. cc), ((λ h. (refl, tt)), ((λ h. tt), tt)))) (omega arith)

abbrev pub request : RequestSpec
request = record {
  request_id = codes "r";
  slo_class = interactive;
  workload = chat;
  prompt_tokens = 12;
  output_tokens = 2;
  prompt_text = codes "hello";
}

abbrev pub reply : Response
reply = record {
  status_code = 200;
  lines = lines;
  ending = closes;
  page = [];
  read_failure = none;
  exit_failure = none;
}

send_one-IsAccount_example :
    (t : RequestTelemetry milli) × ((send_one milli loads describe time request 3 none
        (answered reply)
        0).1
      ≡ ok t)
    × IsAccount milli loads describe time (answered reply) 2 t
    × ((t.per_token_ts_ns ≡ []) ↔ (t.ttft_ms ≡ none))
    × IsMonotone (2 ∷ t.per_token_ts_ns)
send_one-IsAccount_example =
    send_one-IsAccount milli loads describe time (λ k. omega arith) request (omega arith)
      (omega arith) 3 none (answered reply) 0 (omega arith, omega arith)

-- Gaps that grow by a millisecond with each draw.
abbrev draw : ℤ → ℕ → ℤ × ℕ
draw rate n = (pos n, n + 1)

abbrev process : PoissonArrival milli draw
process = record { rate = pos 2000; rng = 5 }

abbrev two : Trace milli
two = record {
  workload = chat;
  seed = pos 1;
  duration_s = pos 1000;
  arrival = record {
    process = poisson;
    rate_per_sec = pos 2000;
    seed = pos 1;
    on_duration_s = none;
    off_duration_s = none;
  };
  requests = request ∷ record request { output_tokens = 9 } ∷ [];
}

poisson_schedule-IsInOrder_example :
    IsInOrder
      (request ∷ record request { output_tokens = 9 } ∷ [])
      (poisson_schedule milli draw process (pos 7) two)
poisson_schedule-IsInOrder_example = poisson_schedule-IsInOrder milli draw process (pos 7) two
