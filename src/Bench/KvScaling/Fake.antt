-- ===== src/Bench/KvScaling/Fake.antt =====
-- bench/kv_scaling/measure.py: `FakeBlockPool` and `FakeEngineDriver`, the engine of the dry run.
-- Arguments that the code rejects when they are not positive are natural numbers. The prompt
-- string and the temperature are ignored by the code.
pub mod Requests
pub mod Calls
pub mod Release
pub mod Uniform
pub mod Lockstep
pub mod Sampled
pub mod Rounds
pub mod Added
pub mod Complete
use goodputlab.Prelude.{
  ℕ, zero, suc, ◌+◌, ◌-◌, ◌/◌, ◌%◌, Bool, true, false, not, ◌&&◌, Option, none, some, List, [], ◌∷◌,
  ltb, leb, ◌==◌, if◌then◌else◌, min,
}
use goodputlab.Bench.KvScaling.Engine.{StepOutput, Action, EngineDriver}
use goodputlab.Prelude.Dict
use goodputlab.Prelude.Int.{ℤ, pos, sub_ℕ}
use goodputlab.Prelude.Result.{Result, ok, raise, value_error, raise_if}
use goodputlab.Prelude.Text.{Text, text_discrete}

pub record FakeRequest : Type 0 where
  pub prompt_len : ℕ
  pub max_tokens : ℕ
  pub ignore_eos : Bool
  pub generated : ℕ
  pub finished : Bool
  pub freed : Bool

-- The pool's two numbers are the last two fields.
pub record FakeEngineDriver : Type 0 where
  pub block_size : ℕ
  pub fixed_overhead_bytes : ℕ
  pub eos_after : Option ℕ
  pub requests : List (Text × FakeRequest)
  pub total_blocks : ℕ
  pub used_blocks : ℕ

abbrev pub is_zero : Option ℕ → Bool
is_zero none = false
is_zero (some n) = n == 0

-- `FakeEngineDriver.__init__`, with the pool's own test last.
unfoldable pub init : ℕ → ℕ → ℕ → Option ℕ → Result FakeEngineDriver
init total_blocks block_size fixed_overhead_bytes eos_after =
    if block_size == 0
    then raise value_error
    else if fixed_overhead_bytes == 0
    then raise value_error
    else if is_zero eos_after
    then raise value_error
    else if total_blocks == 0
    then raise value_error
    else ok (record {
      block_size = block_size;
      fixed_overhead_bytes = fixed_overhead_bytes;
      eos_after = eos_after;
      requests = [];
      total_blocks = total_blocks;
      used_blocks = 0;
    })

-- `math.ceil(a / b)` of a positive `b`, where the quotient of floats is exact enough.
unfoldable pub ceil_div : ℕ → ℕ → ℕ
ceil_div a b = (a + b - 1) / b

-- The blocks that a request holds.
unfoldable pub blocks_of : ℕ → FakeRequest → ℕ
unfolding ceil_div
blocks_of block q =
    if not q.freed && ltb 0 q.generated then ceil_div (q.prompt_len + q.generated) block else 0

unfoldable pub used_by : ℕ → List (Text × FakeRequest) → ℕ
unfolding blocks_of
used_by block [] = 0
used_by block ((_, q) ∷ requests) = blocks_of block q + used_by block requests

-- `_sync_pool` with `_set_used_blocks`; a pool that is too small keeps its old count.
unfoldable pub sync_pool : Action FakeEngineDriver (Unit {0})
unfolding used_by
sync_pool d =
    let used = used_by d.block_size d.requests in
    if ltb d.total_blocks used
    then (d, raise value_error)
    else (record d { used_blocks = used }, ok tt)

-- `num_free_blocks`
unfoldable pub num_free_blocks : FakeEngineDriver → ℤ
num_free_blocks d = sub_ℕ d.total_blocks d.used_blocks

abbrev pub fresh_request : ℕ → ℕ → Bool → FakeRequest
fresh_request max_tokens prompt_len ignore_eos = record {
  prompt_len = prompt_len;
  max_tokens = max_tokens;
  ignore_eos = ignore_eos;
  generated = 0;
  finished = false;
  freed = false;
}

unfoldable pub add_request : Text → Text → ℕ → ℕ → Bool → Action FakeEngineDriver (Unit {0})
unfolding sync_pool Dict.contains Dict.set text_discrete
add_request rid prompt max_tokens prompt_len ignore_eos d =
    if Dict.contains text_discrete rid d.requests
    then (d, raise value_error)
    else if max_tokens == 0
    then (d, raise value_error)
    else if prompt_len == 0
    then (d, raise value_error)
    else sync_pool (record d {
      requests =
          Dict.set text_discrete rid (fresh_request max_tokens prompt_len ignore_eos) d.requests;
    })

-- `_finish_after`
unfoldable pub finish_after : Option ℕ → FakeRequest → ℕ
finish_after none q = q.max_tokens
finish_after (some n) q = if q.ignore_eos then q.max_tokens else min q.max_tokens n

-- One more token of a request that has not finished.
unfoldable pub decode : Option ℕ → FakeRequest → FakeRequest
unfolding finish_after
decode eos q =
    if leb (finish_after eos q) (suc q.generated)
    then record q { generated = suc q.generated; finished = true; freed = true }
    else record q { generated = suc q.generated }

unfoldable pub decode_all : Option ℕ → List (Text × FakeRequest) → List (Text × FakeRequest)
unfolding decode
decode_all eos [] = []
decode_all eos ((rid, q) ∷ requests) =
    (rid, (if q.finished then q else decode eos q)) ∷ decode_all eos requests

-- The outputs of a step on the requests before it.
unfoldable pub outputs : Option ℕ → List (Text × FakeRequest) → List StepOutput
unfolding decode
outputs eos [] = []
outputs eos ((rid, q) ∷ requests) =
    let rest = outputs eos requests in
    let out : StepOutput = record {
      request_id = rid;
      new_tokens = pos 1;
      finished = FakeRequest.finished (decode eos q);
    } in
    if q.finished then rest else out ∷ rest

abbrev pub returning :
    {A : Type 0} → A → FakeEngineDriver × Result (Unit {0}) → FakeEngineDriver × Result A
returning a (d, ok _) = (d, ok a)
returning a (d, raise e) = (d, raise e)

unfoldable pub step : Action FakeEngineDriver (List StepOutput)
unfolding decode_all outputs sync_pool
step d =
    returning (outputs d.eos_after d.requests)
      (sync_pool (record d { requests = decode_all d.eos_after d.requests }))

unfoldable pub get_num_unfinished_requests : List (Text × FakeRequest) → ℕ
get_num_unfinished_requests [] = 0
get_num_unfinished_requests ((_, q) ∷ requests) =
    (if q.finished then 0 else 1) + get_num_unfinished_requests requests

unfoldable pub abort_request : Text → Action FakeEngineDriver (Unit {0})
unfolding Dict.lookup Dict.set text_discrete sync_pool
abort_request rid d = elim (Dict.lookup text_discrete rid d.requests) [
  | none ↦ (d, raise value_error)
  | some q ↦
      sync_pool
        (record d { requests = Dict.set text_discrete rid (record q { freed = true }) d.requests })
]

unfoldable pub free_all : List (Text × FakeRequest) → List (Text × FakeRequest)
free_all [] = []
free_all ((rid, q) ∷ requests) = (rid, record q { freed = true }) ∷ free_all requests

unfoldable pub end_sample : Action FakeEngineDriver (Unit {0})
unfolding free_all sync_pool
end_sample d = sync_pool (record d { requests = free_all d.requests })

-- The fake as a driver of the sampler.
abbrev pub fake : EngineDriver
fake = record {
  Driver = FakeEngineDriver;
  num_gpu_blocks = λ d. pos d.total_blocks;
  num_free_blocks = λ d. ok (num_free_blocks d);
  add_request = add_request;
  step = step;
  end_sample = end_sample;
}
