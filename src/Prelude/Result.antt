-- ===== src/Prelude/Result.antt =====
-- Python's exceptions as values. Each constructor is an exception class that the code raises or
-- lets through; the message is not kept.
use mathlib.Core.Path.{◌≡◌, refl}
use mathlib.Core.Logic.{◌⊎◌, inl, inr}
use mathlib.Core.Bool.{Bool, true, false}

pub data Error : Type 0 where
  value_error key_error index_error type_error attribute_error overflow_error : Error
  zero_division_error : Error
  runtime_error http_error : Error

pub data Result {ℓ} (A : Type ℓ) : Type ℓ where
  ok : A → Result A
  raise : Error → Result A

-- `if test: raise e`
abbrev pub raise_if : Bool → Error → Result (Unit {0})
raise_if false e = ok tt
raise_if true e = raise e

infixl 5 ◌>>=◌ ◌>>◌
abbrev pub ◌>>=◌ {ℓ κ} : {A : Type ℓ} {B : Type κ} → Result A → (A → Result B) → Result B
raise e >>= k = raise e
ok a >>= k = k a

-- The next statement, when the one before it returned.
abbrev pub ◌>>◌ {ℓ} : {B : Type ℓ} → Result (Unit {0}) → Result B → Result B
m >> rest = m >>= λ _. rest

-- A computation that returns ran both of its parts.
pub eq_ok-bind {ℓ κ} :
    {A : Type ℓ} {B : Type κ} (k : A → Result B) (m : Result A) {b : B}
    → (m >>= k) ≡ ok b
    → (a : A) × (m ≡ ok a) × (k a ≡ ok b)
eq_ok-bind k (raise e) h = cc
eq_ok-bind k (ok a) h = (a, refl, h)

pub >>=-ext {ℓ κ} :
    {A : Type ℓ} {B : Type κ} (m : Result A) (f g : A → Result B)
    → ((a : A) → f a ≡ g a)
    → (m >>= f) ≡ (m >>= g)
>>=-ext (raise e) f g h = refl
>>=-ext (ok a) f g h = h a

-- What follows a test that raises.
pub eq_ok-raise_if {ℓ} :
    {A : Type ℓ} (b : Bool) (e : Error) (m : Result A) {a : A}
    → (raise_if b e >> m) ≡ ok a
    → (b ≡ false) × (m ≡ ok a)
eq_ok-raise_if false e m h = (refl, h)
eq_ok-raise_if true e m h = cc

-- A property of the value, if there is one.
abbrev pub Ensures {ℓ κ} : {A : Type ℓ} → (A → Type κ) → Result A → Type κ
Ensures P (ok a) = P a
Ensures P (raise _) = Unit

module _ {ℓ κ μ ν} {A : Type ℓ} {B : Type κ} (P : A → Type μ) (Q : B → Type ν) where
  pub Ensures-bind :
      (m : Result A) (f : A → Result B)
      → Ensures P m
      → ((a : A) → P a → Ensures Q (f a))
      → Ensures Q (m >>= f)
  Ensures-bind (ok a) f h g = g a h
  Ensures-bind (raise e) f h g = tt

-- A property of what follows a computation, given its value.
pub Ensures-then {ℓ κ ν} :
    {A : Type ℓ} {B : Type κ} (Q : B → Type ν) (m : Result A) (k : A → Result B)
    → ((a : A) → m ≡ ok a → Ensures Q (k a))
    → Ensures Q (m >>= k)
Ensures-then Q (raise e) k g = tt
Ensures-then Q (ok a) k g = g a refl

pub of_Ensures {ℓ κ} :
    {A : Type ℓ} (P : A → Type κ) (r : Result A) {a : A} → Ensures P r → r ≡ ok a → P a
of_Ensures P r h e = rw e at h

pub to_Ensures {ℓ κ} :
    {A : Type ℓ} (P : A → Type κ) (r : Result A) → ((a : A) → r ≡ ok a → P a) → Ensures P r
to_Ensures P (ok a) h = h a refl
to_Ensures P (raise e) h = tt

pub Ensures-map {ℓ κ μ} :
    {A : Type ℓ} (P : A → Type κ) (Q : A → Type μ)
    → ((a : A) → P a → Q a)
    → (r : Result A) → Ensures P r
    → Ensures Q r
Ensures-map P Q f (raise e) h = tt
Ensures-map P Q f (ok a) h = f a h

-- To split on a computed result and keep the equation.
pub Result-cases {ℓ} :
    {A : Type ℓ} (r : Result A) → ((a : A) × (r ≡ ok a)) ⊎ ((e : Error) × (r ≡ raise e))
Result-cases (raise e) = inr (e, refl)
Result-cases (ok a) = inl (a, refl)

pub eq_of_ok {ℓ} : {A : Type ℓ} {a b : A} → ok a ≡ ok b → a ≡ b
eq_of_ok h = cc

pub raise_ne {ℓ} : {A : Type ℓ} {a : A} {e : Error} → ¬ (raise e ≡ ok a)
raise_ne h = cc
