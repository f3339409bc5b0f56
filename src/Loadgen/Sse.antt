-- ===== src/Loadgen/Sse.antt =====
-- loadgen/sse.py: `parse_sse_lines`. A generator is the list of the events that it yields, the
-- clock readings that it leaves, and the exception that ends it, if one does. `json.loads` is a
-- parameter; it gives nothing where it raises `JSONDecodeError`.
pub mod Frame
use goodputlab.Prelude.{
  ℕ, Bool, true, false, not, ◌&&◌, ◌||◌, Option, none, some, List, [], ◌∷◌, ◌++◌, drop, ◌==◌,
  if◌then◌else◌, is_yes, length,
}
use goodputlab.Prelude.Json.{Json, null, arr, nil, obj, end, truthy, get_or, first, or_else}
use goodputlab.Prelude.Result.{Error, Result, ok, raise, runtime_error, ◌>>=◌}
use goodputlab.Prelude.Text.{Text, codes, text_discrete, starts_with, strip, rstrip_by}

pub record TokenEvent : Type 0 where
  pub content : Json
  pub ts_ns : ℕ
  pub finish_reason : Json
  pub reasoning : Bool

-- An event before it has its time.
pub record Token : Type 0 where
  pub content : Json
  pub finish_reason : Json
  pub reasoning : Bool

abbrev pub at_time : Token → ℕ → TokenEvent
at_time t ts = record {
  content = t.content;
  ts_ns = ts;
  finish_reason = t.finish_reason;
  reasoning = t.reasoning;
}

-- What one line makes the parser do.
pub data Line : Type 0 where
  skip stop : Line
  token : Token → Line
  fails : Error → Line

abbrev pub is_newline : ℕ → Bool
is_newline c = c == 13 || c == 10

abbrev pub line_of : Result Line → Line
line_of (ok l) = l
line_of (raise e) = fails e

-- The branches on the two channels of a delta.
unfoldable pub channel : Json → Json → Json → Json → Line
unfolding truthy
channel content reasoning_content reasoning_text finish =
    if truthy content
    then token (record { content = content; finish_reason = finish; reasoning = false })
    else if truthy reasoning_content || truthy reasoning_text
    then token (record {
      content = or_else reasoning_content reasoning_text;
      finish_reason = finish;
      reasoning = true;
    })
    else skip

-- From the first choice on.
unfoldable pub choice_line : Json → Result Line
unfolding channel get_or truthy
choice_line choice = do
  found ← get_or (codes "delta") null choice
  let delta = or_else found (obj end)
  content ← get_or (codes "content") null delta
  reasoning_content ← get_or (codes "reasoning_content") null delta
  reasoning_text ← get_or (codes "reasoning") null delta
  finish ← get_or (codes "finish_reason") null choice
  ok (channel content reasoning_content reasoning_text finish)

unfoldable pub payload_line : Json → Result Line
unfolding choice_line get_or truthy first
payload_line payload = do
  found ← get_or (codes "choices") null payload
  let choices = or_else found (arr nil)
  let go = first choices >>= choice_line
  if truthy choices then go else ok skip

-- What a generator leaves behind.
pub record Stream : Type 0 where
  pub events : List TokenEvent
  pub clock : List ℕ
  pub failure : Option Error

abbrev pub finished : List ℕ → Stream
finished clock = record { events = []; clock = clock; failure = none }

abbrev pub broken : List ℕ → Error → Stream
broken clock e = record { events = []; clock = clock; failure = some e }

abbrev pub yielding : TokenEvent → Stream → Stream
yielding event s = record s { events = event ∷ s.events }

module _ (loads : Text → Option Json) where
  -- The text of a data line.
  unfoldable pub data_line : Text → Line
  unfolding payload_line text_discrete
  data_line payload_str =
      if is_yes (text_discrete payload_str (codes "[DONE]"))
      then stop
      else elim (loads payload_str) [ none ↦ skip | some payload ↦ line_of (payload_line payload) ]

  unfoldable pub read_line : Text → Line
  unfolding data_line strip
  read_line raw =
      let line = rstrip_by is_newline raw in
      if length line == 0 || starts_with (codes ":") line
      then skip
      else if not (starts_with (codes "data: ") line)
      then skip
      else data_line (strip (drop 6 line))

  -- A clock that has run out makes `next` raise, which a generator turns into a `RuntimeError`.
  unfoldable pub parse_sse_lines : List Text → List ℕ → Stream
  unfolding read_line
  parse_sse_lines [] clock = finished clock
  parse_sse_lines (raw ∷ lines) clock = elim (read_line raw) [
    | skip ↦ parse_sse_lines lines clock
    | stop ↦ finished clock
    | fails e ↦ broken clock e
    | token t ↦ elim clock [
      | [] ↦ broken [] runtime_error
      | ts ∷ later ↦ yielding (at_time t ts) (parse_sse_lines lines later)
    ]
  ]
