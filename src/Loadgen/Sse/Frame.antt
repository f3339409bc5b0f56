-- ===== src/Loadgen/Sse/Frame.antt =====
-- loadgen/sse.py: a server's lines, and what `parse_sse_lines` reads from them.
use goodputlab.Prelude.{
  ℕ, ◌≤◌, ◌≡◌, refl, sym, ◌∙◌, ap, not, Bool, true, false, List, [], ◌∷◌, ◌++◌, some, none, length,
  drop, All, arith, ◌==◌, Bool-cases, inl, inr,
}
use goodputlab.Loadgen.Sse.{
  Token, TokenEvent, at_time, token, skip, is_newline, payload_line, data_line, read_line,
  parse_sse_lines, choice_line, channel, line_of, stop, finished, yielding, broken, fails,
}
use goodputlab.Prelude.{Option, if◌then◌else◌, length-append}
use goodputlab.Prelude.Json.{
  Json, arr, nil, cons, obj, Fields, end, field, truthy, get_or, get_field, first,
}
use goodputlab.Prelude.Result.{Error, ok}
use goodputlab.Prelude.Text.{Text, codes, is_space, rstrip_by, strip, text_discrete, starts_with}

-- The chunk in which a server sends a token.
abbrev pub delta_of : Token → Fields
delta_of t =
    if t.reasoning
    then field (codes "reasoning_content") t.content end
    else field (codes "content") t.content end

abbrev pub chunk : Token → Json
chunk t = obj (
    field (codes "choices")
      (arr (
        cons
          (obj (
            field (codes "delta") (obj (delta_of t))
              (field (codes "finish_reason") t.finish_reason end)))
          nil))
      end)

-- The line of one chunk, and the blank line after it.
abbrev pub frame : (Json → Text) → Token → List Text
frame dumps t = (codes "data: " ++ (dumps (chunk t) ++ 10 ∷ [])) ∷ (10 ∷ []) ∷ []

abbrev pub frames : (Json → Text) → List Token → List Text
frames dumps [] = []
frames dumps (t ∷ ts) = frame dumps t ++ frames dumps ts

abbrev pub done_line : Text
done_line = codes "data: [DONE]" ++ 10 ∷ []

abbrev pub stamped : List Token → List ℕ → List TokenEvent
stamped [] clock = []
stamped (t ∷ ts) [] = []
stamped (t ∷ ts) (now ∷ clock) = at_time t now ∷ stamped ts clock

-- Of the JSON library: the text of this object has its braces and reads back as the object.
abbrev pub IsSerialized : (Text → Option Json) → (Json → Text) → Json → Type 0
IsSerialized loads dumps j =
    ((body : Text) × (dumps j ≡ b'{' ∷ (body ++ b'}' ∷ []))) × (loads (dumps j) ≡ some j)

abbrev pub IsSent : (Text → Option Json) → (Json → Text) → Token → Type 0
IsSent loads dumps t = (truthy t.content ≡ true) × IsSerialized loads dumps (chunk t)

-- A last character outside the set stays, one in the set goes.
rstrip_by-snoc_keep :
    (p : ℕ → Bool) (s : Text) (c : ℕ) → p c ≡ false → rstrip_by p (s ++ c ∷ []) ≡ s ++ c ∷ []
rstrip_by-snoc_keep p [] c h = rw (h, rstrip_by)
rstrip_by-snoc_keep p (d ∷ s) c h =
    ground (arith, rstrip_by-snoc_keep p s c h, length-append s (c ∷ []))

rstrip_by-snoc_drop :
    (p : ℕ → Bool) (s : Text) (c : ℕ) → p c ≡ true → rstrip_by p (s ++ c ∷ []) ≡ rstrip_by p s
rstrip_by-snoc_drop p [] c h = rw (h, rstrip_by)
rstrip_by-snoc_drop p (d ∷ s) c h = rw (rstrip_by-snoc_drop p s c h)

payload_line-chunk : (t : Token) → truthy t.content ≡ true → payload_line (chunk t) ≡ ok (token t)
unfolding payload_line choice_line channel truthy get_or get_field first text_discrete
payload_line-chunk t h = elim (Bool-cases t.reasoning) [ inl r ↦ rw (r, h) | inr r ↦ rw (r, h) ]

strip-braces : (body : Text) → strip (b'{' ∷ (body ++ b'}' ∷ [])) ≡ b'{' ∷ (body ++ b'}' ∷ [])
unfolding strip is_space
strip-braces body = rw (rstrip_by-snoc_keep is_space (b'{' ∷ body) b'}' refl)

module _ (loads : Text → Option Json) where
  data_line-braces :
      (body : Text)
      → data_line loads (b'{' ∷ body)
        ≡ elim (loads (b'{' ∷ body)) [ none ↦ skip | some j ↦ line_of (payload_line j) ]
  unfolding data_line text_discrete
  data_line-braces body = refl

  -- A line is read without the newline at its end.
  read_line-newline :
      (raw line : Text)
      → rstrip_by is_newline raw ≡ line
      → (length line == 0) ≡ false
      → read_line loads raw ≡ (
          if starts_with (codes ":") line
          then skip
          else if not (starts_with (codes "data: ") line)
          then skip
          else data_line loads (strip (drop 6 line)))
  unfolding read_line
  read_line-newline raw line e h = rw (e, h)

  read_line-data :
      (s : Text)
      → read_line loads (codes "data: " ++ ((s ++ b'}' ∷ []) ++ 10 ∷ []))
        ≡ data_line loads (strip (s ++ b'}' ∷ []))
  read_line-data s =
      read_line-newline (codes "data: " ++ ((s ++ b'}' ∷ []) ++ 10 ∷ []))
        (codes "data: " ++ (s ++ b'}' ∷ []))
        (rstrip_by-snoc_drop is_newline (codes "data: " ++ (s ++ b'}' ∷ [])) 10 refl
          ∙ rstrip_by-snoc_keep is_newline (codes "data: " ++ s) b'}' refl)
        (ground arith)

  read_line-chunk :
      (dumps : Json → Text) (t : Token)
      → IsSent loads dumps t
      → read_line loads (codes "data: " ++ (dumps (chunk t) ++ 10 ∷ [])) ≡ token t
  read_line-chunk dumps t (h, ((body, e), l)) = rw (
    e,
    read_line-data (b'{' ∷ body),
    strip-braces body,
    data_line-braces (body ++ b'}' ∷ []),
    sym e,
    l,
    payload_line-chunk t h,
  )

  read_line-blank : read_line loads (10 ∷ []) ≡ skip
  unfolding read_line
  read_line-blank = refl

  read_line-done : read_line loads done_line ≡ stop
  unfolding read_line data_line text_discrete strip is_space
  read_line-done = refl

  -- One step of the loop, by what its line asks for.
  pub parse-skip :
      (raw : Text) (lines : List Text) (clock : List ℕ)
      → read_line loads raw ≡ skip
      → parse_sse_lines loads (raw ∷ lines) clock ≡ parse_sse_lines loads lines clock
  unfolding parse_sse_lines
  parse-skip raw lines clock e = rw (e, parse_sse_lines)

  pub parse-stop :
      (raw : Text) (lines : List Text) (clock : List ℕ)
      → read_line loads raw ≡ stop
      → parse_sse_lines loads (raw ∷ lines) clock ≡ finished clock
  unfolding parse_sse_lines
  parse-stop raw lines clock e = rw (e, parse_sse_lines)

  pub parse-fails :
      (raw : Text) (lines : List Text) (clock : List ℕ) {e : Error}
      → read_line loads raw ≡ fails e
      → parse_sse_lines loads (raw ∷ lines) clock ≡ broken clock e
  unfolding parse_sse_lines
  parse-fails raw lines clock h = rw (h, parse_sse_lines)

  pub parse-token :
      (raw : Text) (lines : List Text) (now : ℕ) (clock : List ℕ) {t : Token}
      → read_line loads raw ≡ token t
      → parse_sse_lines loads (raw ∷ lines) (now ∷ clock)
        ≡ yielding (at_time t now) (parse_sse_lines loads lines clock)
  unfolding parse_sse_lines
  parse-token raw lines now clock e = rw (e, parse_sse_lines)

  -- From the lines in which a server sends tokens with some content, each one's chunk on a data line
  -- with a blank line after it, then the line that ends the stream and any lines, the parser reads exactly those
  -- tokens in their order, each with the next reading of the clock, takes no other reading and does
  -- not fail. The clock has a reading for each token, and of the JSON library it is supposed that
  -- the text of each chunk is in braces and reads back as the chunk.
  pub parse_sse_lines-frames :
      (dumps : Json → Text) (tokens : List Token) (clock : List ℕ) (after : List Text)
      → All (IsSent loads dumps) tokens
      → length tokens ≤ length clock
      → parse_sse_lines loads (frames dumps tokens ++ (done_line ∷ after)) clock ≡ record {
        events = stamped tokens clock;
        clock = drop (length tokens) clock;
        failure = none;
      }
  parse_sse_lines-frames dumps [] clock after sent enough =
      parse-stop done_line after clock read_line-done
  parse_sse_lines-frames dumps (t ∷ ts) [] after sent enough = absurd (omega (arith, enough))
  parse_sse_lines-frames dumps (t ∷ ts) (now ∷ clock) after (h, sent) enough =
      let lines = frames dumps ts ++ (done_line ∷ after) in
      parse-token (codes "data: " ++ (dumps (chunk t) ++ 10 ∷ [])) ((10 ∷ []) ∷ lines) now clock
        (read_line-chunk dumps t h)
      ∙ ap (yielding (at_time t now)) (
          parse-skip (10 ∷ []) lines clock read_line-blank
          ∙ parse_sse_lines-frames dumps ts clock after sent (omega arith))
