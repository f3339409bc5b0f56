-- ===== src/Tests/Scaling.antt =====
-- The KV-scaling study on concrete inputs.
use goodputlab.Prelude.{◌≡◌, refl, true, false, none, List, [], ◌∷◌, arith}
use goodputlab.Bench.KvScaling.Fake.{
  FakeEngineDriver, init, step, add_request, end_sample, num_free_blocks, fake, abort_request,
}
use goodputlab.Bench.KvScaling.Fake.Calls.{Call, add, tick, abort, run, init-run-IsValid}
use goodputlab.Bench.KvScaling.Fake.Requests.{IsValid}
use goodputlab.Bench.KvScaling.Fake.Complete.{sample_decode_window-readings}
use goodputlab.Bench.KvScaling.Fake.Release.{IsReleased, sample_decode_window-IsReleased}
use goodputlab.Bench.KvScaling.Theory.{
  Config, integer, text, HfKvTheory, config_from_hf_config, head_dim_from_config,
  bytes_per_element_from_dtype,
}
use goodputlab.Bench.KvScaling.Theory.Exact.{IsExact, config_from_hf_config-IsExact}
use goodputlab.Bench.KvScaling.Window.{
  Sample, SampleReadings, sample_decode_window, add_requests, check_sample,
}
use goodputlab.Bench.KvScaling.Window.Readings.{sample_decode_window-IsConsistent}
use goodputlab.Bench.KvScaling.Window.Sound.{IsConsistent}
use goodputlab.Prelude.Int.{pos, ◌-ℤ◌, ◌*ℤ◌}
use goodputlab.Prelude.Result.{ok}
use goodputlab.Prelude.Text.{codes, text_discrete, text_ne, is_space, strip}

abbrev qwen : Config
qwen =
    (codes "num_hidden_layers", integer (pos 24))
    ∷ (codes "num_attention_heads", integer (pos 14))
    ∷ (codes "num_key_value_heads", integer (pos 2))
    ∷ (codes "hidden_size", integer (pos 896))
    ∷ (codes "torch_dtype", text (codes "bfloat16"))
    ∷ []

abbrev qwen_theory : HfKvTheory
qwen_theory = record {
  n_layers = 24;
  n_kv_heads = 2;
  head_dim = 64;
  bytes_per_element = 2;
  bytes_per_token = 12288;
  revision = [];
}

config_from_hf_config-IsExact_example : IsExact qwen qwen_theory
unfolding config_from_hf_config head_dim_from_config bytes_per_element_from_dtype is_space strip
config_from_hf_config-IsExact_example = config_from_hf_config-IsExact qwen [] refl

abbrev engine : FakeEngineDriver
engine = record {
  block_size = 16;
  fixed_overhead_bytes = 1;
  eos_after = none;
  requests = [];
  total_blocks = 8;
  used_blocks = 0;
}

abbrev pair : Sample
pair = record {
  request_ids = codes "a" ∷ codes "b" ∷ [];
  prompts = [] ∷ [] ∷ [];
  prompt_lens = 15 ∷ 20 ∷ [];
  decode_tokens = 3;
  ignore_eos = true;
  prefill_chunks = 1;
  theory_bpt = 100;
  block_size = 16;
}

abbrev pair_readings : SampleReadings
pair_readings = record {
  kv_bytes_prefill = pos 4800;
  kv_bytes_decode = pos 6400;
  live_tokens_prefill = 37;
  live_tokens_decode = 39;
  used_blocks_prefill = pos 3;
  used_blocks_decode = pos 4;
}

sample_decode_window-IsConsistent_example : IsConsistent pair pair_readings
unfolding sample_decode_window add_request end_sample ◌-ℤ◌ num_free_blocks step ◌*ℤ◌
sample_decode_window-IsConsistent_example = sample_decode_window-IsConsistent fake pair engine refl

abbrev calls : List Call
calls =
    add (codes "a") [] 3 15 true
    ∷ tick
    ∷ tick
    ∷ add (codes "b") [] 2 20 true
    ∷ tick
    ∷ abort (codes "b")
    ∷ []

abbrev after_calls : FakeEngineDriver
after_calls = record engine {
  requests =
      (
        codes "a",
        record {
          prompt_len = 15;
          max_tokens = 3;
          ignore_eos = true;
          generated = 3;
          finished = true;
          freed = true;
        },
      )
      ∷ (
        codes "b",
        record {
          prompt_len = 20;
          max_tokens = 2;
          ignore_eos = true;
          generated = 1;
          finished = false;
          freed = true;
        },
      )
      ∷ [];
}

init-run-IsValid_example : IsValid after_calls
unfolding run init add_request step abort_request
init-run-IsValid_example = init-run-IsValid 8 16 1 none calls refl

-- The pool is too small for the second step, which raises.
abbrev small : FakeEngineDriver
small = record engine { total_blocks = 3 }

sample_decode_window-IsReleased_example : IsReleased (sample_decode_window fake pair small).0
unfolding check_sample add_requests add_request
sample_decode_window-IsReleased_example =
    sample_decode_window-IsReleased pair small refl (omega arith) refl

sample_decode_window-readings_example : (sample_decode_window fake pair engine).1 ≡ ok pair_readings
unfolding text_discrete
sample_decode_window-readings_example =
    sample_decode_window-readings engine (codes "a", 15) ((codes "b", 20) ∷ []) ([] ∷ [] ∷ []) 1 1
      100 (omega arith) (omega arith) (omega arith)
      ((text_ne (codes "a") (codes "b") refl, tt), (tt, tt)) (omega arith, (omega arith, tt)) refl
      (omega arith)
