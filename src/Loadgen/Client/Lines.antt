-- ===== src/Loadgen/Client/Lines.antt =====
-- loadgen/client.py: `_stream_tokens` beside the parser run on the whole response.
use goodputlab.Prelude.{
  ℕ, zero, suc, ◌+◌, ◌-◌, ◌≤◌, ◌≡◌, refl, ◌∙◌, ap, Option, none, some, List, [], ◌∷◌, length, All,
  arith, ◌⊎◌, inl, inr,
}
use goodputlab.Loadgen.Client.{stream_tokens, Streamed, closes, Ending, carry_on}
use goodputlab.Loadgen.Sse.{
  parse_sse_lines, read_line, Line, skip, stop, token, fails, Stream, Token, at_time, finished,
}
use goodputlab.Loadgen.Sse.Frame.{parse-skip, parse-stop, parse-token, parse-fails}
use goodputlab.Prelude.Json.{Json}
use goodputlab.Prelude.Result.{Error}
use goodputlab.Prelude.Text.{Text}

-- The readings from the n-th on.
abbrev pub readings : (ℕ → ℕ) → ℕ → ℕ → List ℕ
readings time n zero = []
readings time n (suc k) = time n ∷ readings time (n + 1) k

abbrev pub IsQuiet : (Text → Option Json) → List Text → Type 0
IsQuiet loads [] = Unit
IsQuiet loads (raw ∷ lines) =
    (read_line loads raw ≡ stop → All (λ later. read_line loads later ≡ skip) lines)
    × IsQuiet loads lines

pub Line-cases :
    (l : Line)
    → (l ≡ skip) ⊎ ((l ≡ stop) ⊎ (((t : Token) × (l ≡ token t)) ⊎ ((e : Error) × (l ≡ fails e))))
Line-cases skip = inl refl
Line-cases stop = inr (inl refl)
Line-cases (token t) = inr (inr (inl (t, refl)))
Line-cases (fails e) = inr (inr (inr (e, refl)))

-- A generator's outcome, as the client sees it.
abbrev pub described : (Error → Text) → Option Error → Option Text
described describe none = none
described describe (some e) = some (describe e)

abbrev pub Same : (Error → Text) → Streamed → Stream → Type 0
Same describe s p = (s.events ≡ p.events) × (s.failure ≡ described describe p.failure)

-- No reading of the one that a line may take was taken.
still : (n : ℕ) → n + (1 - 1) ≡ n
still n = omega arith

carry_on-none :
    (describe : Error → Text) (now n : ℕ) (go : ℕ → Streamed)
    → carry_on describe (finished (now ∷ [])) n go ≡ go n
carry_on-none describe now n go = ap go (still n)

module _ (loads : Text → Option Json) (describe : Error → Text) (time : ℕ → ℕ) where
  -- One step of the client's loop.
  pub stream-skip :
      (raw : Text) (lines : List Text) (ending : Ending) (n : ℕ)
      → read_line loads raw ≡ skip
      → stream_tokens loads describe time (raw ∷ lines) ending n
        ≡ stream_tokens loads describe time lines ending n
  unfolding stream_tokens parse_sse_lines
  stream-skip raw lines ending n e =
      rw (parse-skip loads raw [] (time n ∷ []) e)
        (carry_on-none describe (time n) n (stream_tokens loads describe time lines ending))

  pub stream-stop :
      (raw : Text) (lines : List Text) (ending : Ending) (n : ℕ)
      → read_line loads raw ≡ stop
      → stream_tokens loads describe time (raw ∷ lines) ending n
        ≡ stream_tokens loads describe time lines ending n
  unfolding stream_tokens
  stream-stop raw lines ending n e =
      rw (parse-stop loads raw [] (time n ∷ []) e)
        (carry_on-none describe (time n) n (stream_tokens loads describe time lines ending))

  pub stream-token :
      (raw : Text) (lines : List Text) (ending : Ending) (n : ℕ) {t : Token}
      → read_line loads raw ≡ token t
      → let rest = stream_tokens loads describe time lines ending (n + 1) in
        stream_tokens loads describe time (raw ∷ lines) ending n
        ≡ record rest { events = at_time t (time n) ∷ rest.events }
  unfolding stream_tokens parse_sse_lines
  stream-token raw lines ending n e = rw (parse-token loads raw [] (time n) [] e)

  pub stream-fails :
      (raw : Text) (lines : List Text) (ending : Ending) (n : ℕ) {e : Error}
      → read_line loads raw ≡ fails e
      → stream_tokens loads describe time (raw ∷ lines) ending n
        ≡ record { events = []; next = n; failure = some (describe e) }
  unfolding stream_tokens
  stream-fails raw lines ending n e =
      rw (parse-fails loads raw [] (time n ∷ []) e)
        (ap (λ m. record { events = []; next = m; failure = some _ }) (still n))

  silent :
      (lines : List Text) (n : ℕ)
      → All (λ later. read_line loads later ≡ skip) lines
      → stream_tokens loads describe time lines closes n
        ≡ record { events = []; next = n; failure = none }
  unfolding stream_tokens
  silent [] n h = refl
  silent (raw ∷ lines) n h = stream-skip raw lines closes n h.0 ∙ silent lines n h.1

  -- One line more, and enough readings.
  step-Same :
      (raw : Text) (lines : List Text) (n k : ℕ)
      → IsQuiet loads (raw ∷ lines)
      → suc (length lines) ≤ k
      → ((m j : ℕ)
          → length lines ≤ j
          → Same describe
              (stream_tokens loads describe time lines closes m)
              (parse_sse_lines loads lines (readings time m j)))
      → Same describe
          (stream_tokens loads describe time (raw ∷ lines) closes n)
          (parse_sse_lines loads (raw ∷ lines) (readings time n k))
  step-Same raw lines n zero quiet enough later = absurd (omega (arith, enough))
  step-Same raw lines n (suc k) quiet enough later = elim (Line-cases (read_line loads raw)) [
    | inl e ↦
        rw
          (stream-skip raw lines closes n e, parse-skip loads raw lines (readings time n (suc k)) e)
          (later n (suc k) (omega arith))
    | inr (inl e) ↦
        rw
          (
            stream-stop raw lines closes n e,
            silent lines n (quiet.0 e),
            parse-stop loads raw lines (readings time n (suc k)) e,
          )
          (refl, refl)
    | inr (inr (inl (t, e))) ↦
        let (events, failure) = later (n + 1) k (omega arith) in
        rw
          (
            stream-token raw lines closes n e,
            parse-token loads raw lines (time n) (readings time (n + 1) k) e,
          )
          (ap (λ evs. at_time t (time n) ∷ evs) events, failure)
    | inr (inr (inr (err, e))) ↦
        rw
          (
            stream-fails raw lines closes n e,
            parse-fails loads raw lines (readings time n (suc k)) e,
          )
          (refl, refl)
  ]

  -- When the lines after each line that ends the stream are all skipped, the client's loop over the lines of
  -- a response that closes yields what the parser yields when it is run on all of them at once, and
  -- fails when that fails, given at least as many clock readings as there are lines.
  pub stream_tokens-parse_sse_lines :
      (lines : List Text) (n k : ℕ)
      → IsQuiet loads lines
      → length lines ≤ k
      → Same describe
          (stream_tokens loads describe time lines closes n)
          (parse_sse_lines loads lines (readings time n k))
  unfolding stream_tokens parse_sse_lines
  stream_tokens-parse_sse_lines [] n k quiet enough = (refl, refl)
  stream_tokens-parse_sse_lines (raw ∷ lines) n k quiet enough =
      step-Same raw lines n k quiet enough (λ m j. stream_tokens-parse_sse_lines lines m j quiet.1)
