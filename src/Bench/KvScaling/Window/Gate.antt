-- ===== src/Bench/KvScaling/Window/Gate.antt =====
-- What the gate of the block accounting guarantees, and when a batch has started.
use goodputlab.Prelude.{
  ℕ, ◌+◌, ◌*◌, ◌≤◌, ◌<◌, ◌≡◌, refl, inl, inr, Bool, true, false, List, [], ◌∷◌, arith, All, All-map,
  Option-cases,
}
use goodputlab.Bench.KvScaling.Engine.{StepOutput}
use goodputlab.Bench.KvScaling.Window.{
  Sample, batch_size, check_block_consistency, Progress, tokens_of, is_finished, active,
  all_started, any_value, record_output, record_outputs,
}
use goodputlab.Prelude.Dict
use goodputlab.Prelude.Int.{ℤ, pos, negsuc, integer_cases}
use goodputlab.Prelude.Result.{ok, Ensures, Ensures-map, Result-cases, of_Ensures}
use goodputlab.Prelude.Sort.{filter}
use goodputlab.Prelude.Text.{Text, text_discrete}

-- The used blocks cover the live tokens, with at most one block for each request and 64 slots to
-- spare.
pub record IsCovered (s : Sample) (used : ℤ) (live : ℕ) : Type 0 where
  pub blocks : ℕ
  pub used_eq : used ≡ pos blocks
  pub covers : live ≤ blocks * s.block_size
  pub tight : blocks * s.block_size ≤ live + batch_size s * s.block_size + 64

pub check-IsCovered :
    (s : Sample) (used : ℤ) (live : ℕ)
    → check_block_consistency used live (batch_size s) s.block_size true ≡ ok tt
    → IsCovered s used live
unfolding check_block_consistency
check-IsCovered s (negsuc n) live h = cc
check-IsCovered s (pos n) live h = record {
  blocks = n;
  used_eq = refl;
  covers = ground arith;
  tight = ground arith;
}

-- Every request of the batch has a token.
abbrev pub Started : List Text → Progress → Type 0
Started ids p = All (λ rid. 0 < tokens_of p.generated rid) ids

pub any_value-is_finished :
    (d : List (Text × Bool)) (rid : Text) → any_value d ≡ false → is_finished d rid ≡ false
unfolding any_value is_finished Dict.lookup
any_value-is_finished [] rid h = refl
any_value-is_finished ((k, b) ∷ d) rid h = ground (arith, any_value-is_finished d rid)

pub active-all_started :
    (p : Progress) (ids : List Text)
    → any_value p.finished ≡ false
    → all_started p.generated (active p ids) ≡ true
    → Started ids p
unfolding active filter all_started
active-all_started p [] none_is h = tt
active-all_started p (rid ∷ ids) none_is h =
    let on = any_value-is_finished p.finished rid none_is in
    let (here, rest) : (0 < tokens_of p.generated rid)
        × (all_started p.generated (active p ids) ≡ true) =
      ground arith in
    (here, active-all_started p ids none_is rest)

pub Started-all_started :
    (p : Progress) (ids : List Text) → Started ids p → all_started p.generated (active p ids) ≡ true
unfolding active filter all_started
Started-all_started p [] h = refl
Started-all_started p (rid ∷ ids) h =
    let rest = Started-all_started p ids h.1 in ground (arith, h.0)

-- Token counts never fall.
abbrev pub Grows : Progress → Progress → Type 0
Grows p q = (rid : Text) → tokens_of p.generated rid ≤ tokens_of q.generated rid

tokens_of-set :
    (g : List (Text × ℕ)) (rid q : Text) (n : ℕ)
    → tokens_of g rid ≤ n
    → tokens_of g q ≤ tokens_of (Dict.set text_discrete rid n g) q
unfolding tokens_of
tokens_of-set g rid q n h = ground (arith, Dict.lookup-set text_discrete rid q n g)

record_output-Grows : (out : StepOutput) (p : Progress) → Ensures (Grows p) (record_output out p)
unfolding record_output tokens_of
record_output-Grows out p =
    elim (Option-cases (Dict.lookup text_discrete out.request_id p.generated)) [
      | inl e ↦ rw (e, Ensures) tt
      | inr (n, e) ↦ elim (integer_cases out.new_tokens) [
        | inl (k, f) ↦
            rw (e, f, Ensures)
              (λ rid.
                tokens_of-set p.generated out.request_id rid (n + k)
                  (rw (tokens_of, e) (omega arith)))
        | inr (k, f) ↦ rw (e, f, Ensures) tt
      ]
    ]

pub record_outputs-Grows :
    (outs : List StepOutput) (p : Progress) → Ensures (Grows p) (record_outputs outs p)
unfolding record_outputs
record_outputs-Grows [] p = λ rid. omega arith
record_outputs-Grows (out ∷ outs) p = elim (Result-cases (record_output out p)) [
  | inl (q, e) ↦
      rw (e, Ensures)
        (Ensures-map (Grows q) (Grows p)
          (λ r g rid. omega (
            arith,
            g rid,
            of_Ensures (Grows p) (record_output out p) (record_output-Grows out p) e rid,
          ))
          (record_outputs outs q) (record_outputs-Grows outs q))
  | inr (x, e) ↦ rw (e, Ensures) tt
]

pub Started-Grows : (ids : List Text) (p q : Progress) → Grows p q → Started ids p → Started ids q
Started-Grows ids p q g h = All-map (λ rid up. omega (arith, up, g rid)) ids h
