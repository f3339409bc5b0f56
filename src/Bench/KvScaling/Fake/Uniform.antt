-- ===== src/Bench/KvScaling/Fake/Uniform.antt =====
-- A batch of requests of one length of answer in the fake engine, which all decode in step.
use goodputlab.Prelude.{
  ℕ, zero, suc, ◌+◌, ◌-◌, ◌*◌, ◌/◌, ◌≤◌, ◌<◌, ◌≡◌, refl, Bool, true, false, Option, none, some,
  List, [], ◌∷◌, arith, ltb, leb, length, Bool-cases, inl, inr,
}
use goodputlab.Bench.KvScaling.Engine.{StepOutput}
use goodputlab.Bench.KvScaling.Fake.{
  FakeRequest, FakeEngineDriver, blocks_of, used_by, ceil_div, finish_after, decode, decode_all,
  outputs, sync_pool, step,
}
use goodputlab.Prelude.Int.{pos}
use goodputlab.Prelude.Result.{ok}
use goodputlab.Prelude.Text.{Text}
use native.Mathlib.Nat.{div-lt_iff_lt-mul, div-mul-le_self, le-div_iff_mul-le}

-- The requests' names with the lengths of their prompts.
abbrev pub Batch : Type 0
Batch = List (Text × ℕ)

abbrev pub ids : Batch → List Text
ids [] = []
ids (e ∷ b) = e.0 ∷ ids b

abbrev pub lens : Batch → List ℕ
lens [] = []
lens (e ∷ b) = e.1 ∷ lens b

-- The same value for each request.
abbrev pub tag : {A : Type 0} → A → Batch → List (Text × A)
tag v [] = []
tag v (e ∷ b) = (e.0, v) ∷ tag v b

-- A request after `j` steps of a decode of `n` tokens, which may have finished with the last one.
abbrev pub request : Bool → ℕ → ℕ → ℕ → FakeRequest
request fin n j len = record {
  prompt_len = len;
  max_tokens = n;
  ignore_eos = true;
  generated = j;
  finished = fin;
  freed = fin;
}

abbrev pub requests : Bool → ℕ → ℕ → Batch → List (Text × FakeRequest)
requests fin n j [] = []
requests fin n j (e ∷ b) = (e.0, request fin n j e.1) ∷ requests fin n j b

abbrev pub out : Bool → Text → StepOutput
out fin rid = record { request_id = rid; new_tokens = pos 1; finished = fin }

abbrev pub outs : Bool → Batch → List StepOutput
outs fin [] = []
outs fin (e ∷ b) = out fin e.0 ∷ outs fin b

abbrev pub live : ℕ → Batch → ℕ
live j [] = 0
live j (e ∷ b) = e.1 + j + live j b

-- The blocks of so many tokens.
abbrev pub ceil : ℕ → ℕ → ℕ
ceil block a = (a + block - 1) / block

abbrev pub blocks : ℕ → ℕ → Batch → ℕ
blocks block j [] = 0
blocks block j (e ∷ b) = ceil block (e.1 + j) + blocks block j b

ceil-covers : (block a : ℕ) → 0 < block → a ≤ ceil block a * block
ceil-covers block a h =
    let q = ceil block a in
    let below = (div-lt_iff_lt-mul {x = a + block - 1} {y = q + 1} h).0 (omega arith) in
    omega (arith, below, h)

ceil-tight : (block a : ℕ) → 0 < block → ceil block a * block ≤ a + block
ceil-tight block a h = omega (arith, div-mul-le_self (a + block - 1) block, h)

ceil_mono : (block a c : ℕ) → 0 < block → a ≤ c → ceil block a ≤ ceil block c
ceil_mono block a c h l =
    (le-div_iff_mul-le {x = ceil block a} {y = c + block - 1} h).1
      (omega (arith, div-mul-le_self (a + block - 1) block, l))

-- The blocks in use.
abbrev pub usage : Bool → ℕ → ℕ → Batch → ℕ
usage true block j b = 0
usage false block zero b = 0
usage false block (suc j) b = blocks block (suc j) b

pub used_by-requests :
    (fin : Bool) (block n j : ℕ) (b : Batch)
    → used_by block (requests fin n j b) ≡ usage fin block j b
unfolding used_by blocks_of ceil_div
used_by-requests true block n j [] = refl
used_by-requests true block n j (e ∷ b) = omega (arith, used_by-requests true block n j b)
used_by-requests false block n zero [] = refl
used_by-requests false block n zero (e ∷ b) = omega (arith, used_by-requests false block n zero b)
used_by-requests false block n (suc j) [] = refl
used_by-requests false block n (suc j) (e ∷ b) =
    ground (arith, used_by-requests false block n (suc j) b)

-- The step finishes the request when it makes its last token.
decode-request :
    (eos : Option ℕ) (n j len : ℕ)
    → decode eos (request false n j len) ≡ request (leb n (suc j)) n (suc j) len
unfolding decode finish_after
decode-request none n j len = elim (Bool-cases (leb n (suc j))) [ inl e ↦ rw e | inr e ↦ rw e ]
decode-request (some m) n j len = elim (Bool-cases (leb n (suc j))) [ inl e ↦ rw e | inr e ↦ rw e ]

decode_all-requests :
    (eos : Option ℕ) (n j : ℕ) (b : Batch)
    → decode_all eos (requests false n j b) ≡ requests (leb n (suc j)) n (suc j) b
unfolding decode_all
decode_all-requests eos n j [] = refl
decode_all-requests eos n j (e ∷ b) = rw (decode-request eos n j e.1, decode_all-requests eos n j b)

outputs-requests :
    (eos : Option ℕ) (n j : ℕ) (b : Batch)
    → outputs eos (requests false n j b) ≡ outs (leb n (suc j)) b
unfolding outputs
outputs-requests eos n j [] = refl
outputs-requests eos n j (e ∷ b) = rw (decode-request eos n j e.1, outputs-requests eos n j b)

-- The blocks cover the tokens, with less than a block to spare for each request.
pub blocks-covers : (block j : ℕ) (b : Batch) → 0 < block → live j b ≤ blocks block j b * block
blocks-covers block j [] h = omega arith
blocks-covers block j (e ∷ b) h =
    omega (arith, ceil-covers block (e.1 + j) h, blocks-covers block j b h)

pub blocks-tight :
    (block j : ℕ) (b : Batch) → 0 < block → blocks block j b * block ≤ live j b + length b * block
blocks-tight block j [] h = omega arith
blocks-tight block j (e ∷ b) h =
    omega (arith, ceil-tight block (e.1 + j) h, blocks-tight block j b h)

pub blocks_mono :
    (block j k : ℕ) (b : Batch) → 0 < block → j ≤ k → blocks block j b ≤ blocks block k b
blocks_mono block j k [] h l = omega arith
blocks_mono block j k (e ∷ b) h l =
    omega
      (arith, ceil_mono block (e.1 + j) (e.1 + k) h (omega (arith, l)), blocks_mono block j k b h l)

-- The engine with this batch alone.
abbrev pub engine : FakeEngineDriver → Bool → ℕ → ℕ → Batch → FakeEngineDriver
engine d fin n j b = record d {
  requests = requests fin n j b;
  used_blocks = usage fin d.block_size j b;
}

pub usage-le : (fin : Bool) (block j : ℕ) (b : Batch) → usage fin block j b ≤ blocks block j b
usage-le true block j b = omega arith
usage-le false block zero b = omega arith
usage-le false block (suc j) b = omega arith

pub step-engine :
    (d : FakeEngineDriver) (n j : ℕ) (b : Batch)
    → usage (leb n (suc j)) d.block_size (suc j) b ≤ d.total_blocks
    → step (engine d false n j b)
      ≡ (engine d (leb n (suc j)) n (suc j) b, ok (outs (leb n (suc j)) b))
unfolding step sync_pool
step-engine d n j b h =
    let fin = leb n (suc j) in
    let used = used_by-requests fin d.block_size n (suc j) b in
    let fits : ltb d.total_blocks (usage fin d.block_size (suc j) b) ≡ false = ground (arith, h) in
    rw (decode_all-requests d.eos_after n j b, outputs-requests d.eos_after n j b, used, fits)
