-- ===== src/Bench/KvScaling/Fake/Requests.antt =====
-- The requests of the fake engine: the token counts and the pool over one operation.
use goodputlab.Prelude.{
  ℕ, ◌≤◌, ◌<◌, ◌≡◌, refl, sym, subst, ite, if◌then◌else◌, Bool, true, false, Option, none, some,
  List, [], ◌∷◌, arith, All, inl, inr, Bool-cases, ltb,
}
use goodputlab.Bench.KvScaling.Fake.{
  FakeRequest, FakeEngineDriver, is_zero, used_by, sync_pool, fresh_request, finish_after, decode,
  decode_all, free_all,
}
use goodputlab.Prelude.Dict
use goodputlab.Prelude.Result.{Result, ok, raise, value_error}
use goodputlab.Prelude.Text.{Text, text_discrete}

-- A request has at most the tokens that it finishes at, has fewer before it finishes, and holds
-- no blocks after.
pub record IsWithin (eos : Option ℕ) (q : FakeRequest) : Type 0 where
  pub positive : 0 < q.max_tokens
  pub bounded : q.generated ≤ finish_after eos q
  pub unfinished : q.finished ≡ false → q.generated < finish_after eos q
  pub released : q.finished ≡ true → q.freed ≡ true

pub record IsValid (d : FakeEngineDriver) : Type 0 where
  pub eos_positive : is_zero d.eos_after ≡ false
  pub used_eq : d.used_blocks ≡ used_by d.block_size d.requests
  pub bounded : d.used_blocks ≤ d.total_blocks
  pub within : All (λ e. IsWithin d.eos_after e.1) d.requests

-- All that holds of a driver before its pool is synchronised.
abbrev pub Within : FakeEngineDriver → Type 0
Within d = (is_zero d.eos_after ≡ false) × All (λ e. IsWithin d.eos_after e.1) d.requests

abbrev pub Returns : {A : Type 0} → FakeEngineDriver × Result A → Type 0
Returns (d, ok _) = IsValid d
Returns (d, raise _) = Unit

pub sync_pool-IsValid : (d : FakeEngineDriver) → Within d → Returns (sync_pool d)
unfolding sync_pool
sync_pool-IsValid d w = elim (Bool-cases (ltb d.total_blocks (used_by d.block_size d.requests))) [
  | inl e ↦
      let small : sync_pool d ≡ (d, raise value_error) = rw e refl in subst Returns (sym small) tt
  | inr e ↦
      let fits : sync_pool d ≡ (record d { used_blocks = used_by d.block_size d.requests }, ok tt) =
        rw e refl in
      subst Returns (sym fits)
        (record { eos_positive = w.0; used_eq = refl; bounded = ground arith; within = w.1 })
]

decode-IsWithin :
    (eos : Option ℕ) (q : FakeRequest)
    → q.finished ≡ false
    → IsWithin eos q
    → IsWithin eos (decode eos q)
unfolding decode finish_after
decode-IsWithin none q on v = record {
  positive = ground arith;
  bounded = ground arith;
  unfinished = ground arith;
  released = ground arith;
}
decode-IsWithin (some n) q on v = record {
  positive = ground arith;
  bounded = ground arith;
  unfinished = ground arith;
  released = ground arith;
}

decode_if-IsWithin :
    (eos : Option ℕ) (q : FakeRequest) (b : Bool)
    → q.finished ≡ b
    → IsWithin eos q
    → IsWithin eos (if b then q else decode eos q)
decode_if-IsWithin eos q true e v = v
decode_if-IsWithin eos q false e v = decode-IsWithin eos q e v

pub decode_all-IsWithin :
    (eos : Option ℕ) (requests : List (Text × FakeRequest))
    → All (λ e. IsWithin eos e.1) requests
    → All (λ e. IsWithin eos e.1) (decode_all eos requests)
unfolding decode_all
decode_all-IsWithin eos [] w = tt
decode_all-IsWithin eos ((rid, q) ∷ requests) w =
    (decode_if-IsWithin eos q q.finished refl w.0, decode_all-IsWithin eos requests w.1)

pub fresh-IsWithin :
    (eos : Option ℕ) (max_tokens prompt_len : ℕ) (ignore_eos : Bool)
    → is_zero eos ≡ false
    → 0 < max_tokens
    → IsWithin eos (fresh_request max_tokens prompt_len ignore_eos)
unfolding finish_after
fresh-IsWithin none n l i e up = record {
  positive = up;
  bounded = ground arith;
  unfinished = ground arith;
  released = ground arith;
}
fresh-IsWithin (some k) n l i e up = record {
  positive = up;
  bounded = ground arith;
  unfinished = ground arith;
  released = ground arith;
}

pub All-set :
    {V : Type 0} (P : V → Type 0) (k : Text) (v : V) (d : List (Text × V))
    → P v
    → All (λ e. P e.1) d
    → All (λ e. P e.1) (Dict.set text_discrete k v d)
unfolding Dict.set
All-set P k v [] p h = (p, tt)
All-set P k v ((j, w) ∷ d) p h =
    elim (text_discrete j k)
      as (λ x. All (λ e. P e.1) (ite x ((j, v) ∷ d) ((j, w) ∷ Dict.set text_discrete k v d))) [
        | yes _ ↦ (p, h.1)
        | no _ ↦ (h.0, All-set P k v d p h.1)
      ]

pub freed-IsWithin :
    (eos : Option ℕ) (q : FakeRequest) → IsWithin eos q → IsWithin eos (record q { freed = true })
unfolding finish_after
freed-IsWithin none q v = record {
  positive = v.positive;
  bounded = v.bounded;
  unfinished = v.unfinished;
  released = λ _. refl;
}
freed-IsWithin (some n) q v = record {
  positive = v.positive;
  bounded = v.bounded;
  unfinished = v.unfinished;
  released = λ _. refl;
}

pub free_all-IsWithin :
    (eos : Option ℕ) (requests : List (Text × FakeRequest))
    → All (λ e. IsWithin eos e.1) requests
    → All (λ e. IsWithin eos e.1) (free_all requests)
unfolding free_all
free_all-IsWithin eos [] w = tt
free_all-IsWithin eos ((rid, q) ∷ requests) w =
    (freed-IsWithin eos q w.0, free_all-IsWithin eos requests w.1)
