-- ===== src/Bench/KvScaling/Window/Batch.antt =====
-- bench/kv_scaling/measure.py: the arguments of a sample, and what its loop knows of the batch.
use goodputlab.Prelude.{
  ℕ, ◌+◌, ◌*◌, Bool, true, false, not, ◌&&◌, ◌||◌, none, some, List, [], ◌∷◌, ltb, ◌==◌,
  if◌then◌else◌, length,
}
use goodputlab.Bench.KvScaling.Engine.{StepOutput}
use goodputlab.Prelude.Dict
use goodputlab.Prelude.Int.{ℤ, pos, negsuc}
use goodputlab.Prelude.Result.{Result, ok, raise, value_error, raise_if}
use goodputlab.Prelude.Sort.{filter}
use goodputlab.Prelude.Text.{Text, text_discrete}

-- The arguments of a sample.
pub record Sample : Type 0 where
  pub request_ids : List Text
  pub prompts : List Text
  pub prompt_lens : List ℕ
  pub decode_tokens : ℕ
  pub ignore_eos : Bool
  pub prefill_chunks : ℕ
  pub theory_bpt : ℕ
  pub block_size : ℕ

abbrev pub batch_size : Sample → ℕ
batch_size s = length s.request_ids

pub record SampleReadings : Type 0 where
  pub kv_bytes_prefill : ℤ
  pub kv_bytes_decode : ℤ
  pub live_tokens_prefill : ℕ
  pub live_tokens_decode : ℕ
  pub used_blocks_prefill : ℤ
  pub used_blocks_decode : ℤ

-- `_check_block_consistency`: used blocks, live tokens, batch size, block size, fully scheduled.
unfoldable pub check_block_consistency : ℤ → ℕ → ℕ → ℕ → Bool → Result (Unit {0})
check_block_consistency (negsuc _) live batch block fully = raise value_error
check_block_consistency (pos used) live batch block fully =
    if ltb (live + batch * block + 64) (used * block)
    then raise value_error
    else raise_if (fully && ltb (used * block) live) value_error

abbrev pub has_zero : List ℕ → Bool
has_zero [] = false
has_zero (n ∷ ns) = n == 0 || has_zero ns

-- The tests of the arguments, in their order.
unfoldable pub check_sample : Sample → Result (Unit {0})
check_sample s =
    raise_if
      (batch_size s == 0
        || (not (length s.prompts == batch_size s && length s.prompt_lens == batch_size s)
            || (has_zero s.prompt_lens
                || (s.decode_tokens == 0 || (s.theory_bpt == 0 || s.block_size == 0)))))
      value_error

-- The two dictionaries of the loop.
pub record Progress : Type 0 where
  pub generated : List (Text × ℕ)
  pub finished : List (Text × Bool)

-- `{rid: v for rid in ids}`, added to a dictionary.
abbrev pub from_keys : {A : Type 0} → A → List Text → List (Text × A) → List (Text × A)
from_keys v [] d = d
from_keys v (rid ∷ ids) d = from_keys v ids (Dict.set text_discrete rid v d)

-- Every id of the batch is a key of both dictionaries, so the defaults are never read.
unfoldable pub tokens_of : List (Text × ℕ) → Text → ℕ
tokens_of generated rid = elim (Dict.lookup text_discrete rid generated) [ none ↦ 0 | some n ↦ n ]

unfoldable pub is_finished : List (Text × Bool) → Text → Bool
is_finished finished rid = elim (Dict.lookup text_discrete rid finished) [
  | none ↦ false
  | some b ↦ b
]

unfoldable pub active : Progress → List Text → List Text
unfolding filter is_finished
active p ids = filter (λ rid. not (is_finished p.finished rid)) ids

unfoldable pub live_tokens : Progress → List Text → List ℕ → ℕ
unfolding is_finished tokens_of
live_tokens p (rid ∷ ids) (len ∷ lens) =
    let rest = live_tokens p ids lens in
    if is_finished p.finished rid then rest else len + tokens_of p.generated rid + rest
live_tokens p _ _ = 0

-- `all(generated[rid] >= 1 for rid in ids)`
unfoldable pub all_started : List (Text × ℕ) → List Text → Bool
unfolding tokens_of
all_started generated [] = true
all_started generated (rid ∷ ids) = ltb 0 (tokens_of generated rid) && all_started generated ids

-- `any(d.values())` and `all(d.values())`
unfoldable pub any_value : List (Text × Bool) → Bool
any_value [] = false
any_value ((_, b) ∷ d) = b || any_value d

unfoldable pub all_values : List (Text × Bool) → Bool
all_values [] = true
all_values ((_, b) ∷ d) = b && all_values d

-- One output of a step.
unfoldable pub record_output : StepOutput → Progress → Result Progress
record_output out p = elim (Dict.lookup text_discrete out.request_id p.generated) [
  | none ↦ raise value_error
  | some n ↦ elim out.new_tokens [
    | negsuc _ ↦ raise value_error
    | pos k ↦ ok (record {
      generated = Dict.set text_discrete out.request_id (n + k) p.generated;
      finished =
          if out.finished
          then Dict.set text_discrete out.request_id true p.finished
          else p.finished;
    })
  ]
]

unfoldable pub record_outputs : List StepOutput → Progress → Result Progress
unfolding record_output
record_outputs [] p = ok p
record_outputs (out ∷ outs) p = elim (record_output out p) [
  | raise e ↦ raise e
  | ok p' ↦ record_outputs outs p'
]
