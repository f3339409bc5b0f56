-- ===== src/Bench/KvScaling/Engine.antt =====
-- bench/kv_scaling/measure.py: the engine drivers. A driver is a record of its operations on the
-- states of an engine; an operation that raises leaves a state behind as well.
use goodputlab.Prelude.{ℕ, ◌≡◌, refl, Bool, List}
use goodputlab.Prelude.Int.{ℤ}
use goodputlab.Prelude.Result.{Result, ok, raise, Ensures}
use goodputlab.Prelude.Text.{Text}

pub record StepOutput : Type 0 where
  pub request_id : Text
  pub new_tokens : ℤ
  pub finished : Bool

-- What a stateful computation does to a state, and its result.
abbrev pub Action : Type 0 → Type 0 → Type 0
Action D A = D → D × Result A

-- `add_request` takes the id, the prompt, `max_tokens`, `prompt_len` and `ignore_eos`; the
-- temperature is always 0.
pub record EngineDriver : Type 1 where
  pub Driver : Type 0
  pub num_gpu_blocks : Driver → ℤ
  pub num_free_blocks : Driver → Result ℤ
  pub add_request : Text → Text → ℕ → ℕ → Bool → Action Driver (Unit {0})
  pub step : Action Driver (List StepOutput)
  pub end_sample : Action Driver (Unit {0})

module _ {D A B : Type 0} where
  -- The rest of a computation, from where the first part left off.
  abbrev pub after : (A → Action D B) → D × Result A → D × Result B
  after f (d, raise e) = (d, raise e)
  after f (d, ok a) = f a d

infixl 5 ◌>>=◌ ◌>>◌
abbrev pub ◌>>=◌ : {D A B : Type 0} → Action D A → (A → Action D B) → Action D B
(m >>= f) d = after f (m d)

abbrev pub ◌>>◌ : {D B : Type 0} → Action D (Unit {0}) → Action D B → Action D B
m >> rest = m >>= λ _. rest

-- A computation that leaves the state alone.
abbrev pub lift : {D A : Type 0} → Result A → Action D A
lift r d = (d, r)

-- A computation that reads the state.
abbrev pub read : {D A : Type 0} → (D → Result A) → Action D A
read f d = (d, f d)

-- `try: m  finally: last`. An exception of the last step takes the place of what came before.
abbrev pub finally_result : {A : Type 0} → Result A → Result (Unit {0}) → Result A
finally_result r (ok _) = r
finally_result r (raise e) = raise e

infix 6 ◌finally◌
unfoldable pub ◌finally◌ : {D A : Type 0} → Action D A → Action D (Unit {0}) → Action D A
(m finally last) d = ((last (m d).0).0, finally_result (m d).1 (last (m d).0).1)

module _ {D A B : Type 0} (Q : B → Type 0) where
  -- A property of the result of a computation, from one of its rest.
  pub Ensures-after :
      (f : A → Action D B) (x : D × Result A)
      → ((d : D) (a : A) → x ≡ (d, ok a) → Ensures Q (f a d).1)
      → Ensures Q (after f x).1
  Ensures-after f (d, raise e) g = tt
  Ensures-after f (d, ok a) g = g d a refl

  pub Ensures-lift :
      (f : A → Action D B) (r : Result A) (d : D)
      → ((a : A) → r ≡ ok a → Ensures Q (f a d).1)
      → Ensures Q (after f (d, r)).1
  Ensures-lift f (raise e) d g = tt
  Ensures-lift f (ok a) d g = g a refl
