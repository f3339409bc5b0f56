-- ===== src/Tests/Cells.antt =====
-- A cell of the KV-scaling study on the fake engine.
use goodputlab.Prelude.{ℕ, ltb, ◌+◌, All, ◌≡◌, refl, Option, some, [], ◌∷◌}
use goodputlab.Bench.KvScaling.Cells.{
  SweepContext, Point, KvScalingCell, run_cell, read_cell_json, write_cell_json, sample_of,
}
use goodputlab.Bench.KvScaling.Engine.{EngineDriver}
use goodputlab.Bench.KvScaling.Window.{sample_decode_window}
use goodputlab.Bench.KvScaling.Cells.Measured.{
  IsMeasured, run_cell-IsMeasured, read_cell_json-write_cell_json,
}
use goodputlab.Bench.KvScaling.Fit.{KneePoint, find_knee, knee_at}
use goodputlab.Bench.KvScaling.Fit.Knee.{IsKnee, Misses, find_knee-IsKnee}
use goodputlab.Prelude.Dict
use goodputlab.Prelude.Int.{pos, ◌-ℤ◌, ◌*ℤ◌, ◌+ℤ◌}
use goodputlab.Prelude.Result.{ok, raise, value_error}
use goodputlab.Tests.Floats.{milli}
use goodputlab.Prelude.Text.{Text, codes, decimal, text_discrete}

-- An engine with one block in use, whose request finishes at the second step. The state is the
-- last request and the number of its steps.
abbrev quick : EngineDriver
quick = record {
  Driver = Text × ℕ;
  num_gpu_blocks = λ d. pos 8;
  num_free_blocks = λ d. ok (pos 7);
  add_request = λ rid prompt max_tokens len ignore d. ((rid, 0), ok tt);
  step = λ d. (
    (d.0, d.1 + 1),
    ok (record { request_id = d.0; new_tokens = pos 1; finished = ltb 0 d.1 } ∷ []),
  );
  end_sample = λ d. (d, ok tt);
}

abbrev context : SweepContext
context = record {
  campaign_id = codes "k";
  model_id = codes "m";
  model_revision = [];
  gpu = [];
  vllm_version = [];
  theory_bpt = 10;
  baseline_bytes = 1;
  block_size = 16;
  decode_tokens = 4;
  method = [];
  max_num_batched_tokens = 8192;
}

abbrev point : Point
point = record { seq_len = 15; batch_size = 1; n_samples = 2; prompts = [] ∷ [] }

abbrev cell : KvScalingCell
cell = record {
  model_id = codes "m";
  gpu = [];
  vllm_version = [];
  seq_len = 15;
  batch_size = 1;
  n_samples = 2;
  kv_bytes_used_samples = pos 160 ∷ pos 160 ∷ [];
  kv_bytes_prefill_samples = some (pos 160 ∷ pos 160 ∷ []);
  total_tokens = 16;
  baseline_bytes = 1;
  method = [];
}

run_cell-IsMeasured_example : IsMeasured context point cell
unfolding run_cell sample_decode_window ◌-ℤ◌ ◌*ℤ◌ sample_of decimal Dict.lookup Dict.set
    text_discrete
run_cell-IsMeasured_example = run_cell-IsMeasured context point quick (codes "", 0) refl

-- A codec that knows one cell.
abbrev parse : Text → Option KvScalingCell
parse raw = some cell

abbrev dump : KvScalingCell → Text
dump c = codes "{}"

read_cell_json-write_cell_json_example :
    read_cell_json parse dump (some (write_cell_json parse dump cell)) 15 1 2 (codes "m")
    ≡ some cell
unfolding run_cell sample_decode_window ◌-ℤ◌ ◌*ℤ◌ sample_of decimal Dict.lookup Dict.set
    text_discrete
read_cell_json-write_cell_json_example =
    read_cell_json-write_cell_json context point quick parse dump (codes "", 0) refl refl

abbrev larger : KvScalingCell
larger = record cell { kv_bytes_used_samples = pos 500 ∷ pos 500 ∷ []; total_tokens = 50 }

find_knee-IsKnee_example :
    ((k : KneePoint milli)
      → find_knee milli (larger ∷ cell ∷ []) (pos 300) ≡ ok k
      → IsKnee milli 300 (larger ∷ cell ∷ []) k)
    × (All (Misses milli 300) (larger ∷ cell ∷ [])
        → find_knee milli (larger ∷ cell ∷ []) (pos 300) ≡ raise value_error)
find_knee-IsKnee_example = find_knee-IsKnee milli 300 (larger ∷ cell ∷ [])

find_knee_run : find_knee milli (larger ∷ cell ∷ []) (pos 300) ≡ ok (knee_at milli larger (pos 625))
unfolding find_knee ◌*ℤ◌ ◌+ℤ◌ ◌-ℤ◌
find_knee_run = refl
