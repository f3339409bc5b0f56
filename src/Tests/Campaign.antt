-- ===== src/Tests/Campaign.antt =====
-- A campaign of two cells: its configuration, its gates, its sweep and its summary.
use goodputlab.Prelude.{
  ℕ, ◌+◌, ◌*◌, ◌≡◌, ◌↔◌, ◌⊎◌, true, refl, false, Option, none, some, List, [], ◌∷◌, All,
}
use goodputlab.Bench.Matrix.Aggregate.{CampaignReport, summarize, topology_discrete}
use goodputlab.Bench.Matrix.Aggregate.Complete.{IsOrderly}
use goodputlab.Bench.Matrix.Aggregate.Totals.{IsShared, summarize-IsShared}
use goodputlab.Bench.Matrix.Cells.{
  Topology, Model, Mix, CellSpec, cells, cell_id, topology_value, derive_seed,
}
use goodputlab.Bench.Matrix.Config.{
  MatrixSweepConfig, restrict_topologies, to_matrix_spec, is_allowed,
}
use goodputlab.Bench.Matrix.Config.Restrict.{restrict_topologies-cells}
use goodputlab.Bench.Matrix.Preflight.{PromptPreflight, build_prompt_preflight, is_ok, mix_discrete}
use goodputlab.Bench.Matrix.Preflight.Fits.{TraceFits, build_prompt_preflight-TraceFits}
use goodputlab.Bench.Matrix.Preflight.Sampling.{first_six}
use goodputlab.Bench.Matrix.Sweep.{
  Directory, Measurement, valid, corrupt, result_of, run_pending, pending_cell_specs, member,
}
use goodputlab.Bench.Matrix.Sweep.Finished.{run_pending-pending_cell_specs}
use goodputlab.Core.Trace.{RequestSpec, chat, interactive}
use goodputlab.Prelude.Dict
use goodputlab.Prelude.Int.{ℤ, pos, ◌+ℤ◌, ◌-ℤ◌, ◌*ℤ◌}
use goodputlab.Prelude.Result.{Result, ok}
use goodputlab.Prelude.Text.{Text, codes, text_discrete, text_ne, decimal, is_space}
use goodputlab.Scripts.RunMatrix.{Args, main}
use goodputlab.Scripts.RunMatrix.Gates.{IsIdle, IsAuthorized, main-IsAuthorized}
use goodputlab.Tests.Floats.{milli}

abbrev config : MatrixSweepConfig milli
config = record {
  topologies = some (Topology.colocated ∷ Topology.disagg ∷ []);
  models = some (Model.qwen3_1_7b ∷ []);
  rates_rps = some (1 ∷ []);
  mixes = some (Mix.chat ∷ []);
  n_warmup = 1;
  n_measure = 2;
  cost_per_hour_usd = pos 1790;
  smoke = false;
  max_model_len = some 100;
  output_dir = codes "out";
  pod_id = codes "pod";
  vllm_base_url_env = codes "URL";
}

abbrev cell : Topology → CellSpec
cell t = record {
  topology = t;
  model = Model.qwen3_1_7b;
  rate_rps = 1;
  mix = Mix.chat;
  n_warmup = 1;
  n_measure = 2;
  seed = derive_seed t Model.qwen3_1_7b 1 Mix.chat;
}

abbrev both : List CellSpec
both = cell Topology.colocated ∷ cell Topology.disagg ∷ []

restrict_topologies-cells_example :
    All
      (λ c.
        (member (topology_value c.topology) (codes "disagg" ∷ []) ≡ true)
        × (is_allowed (Topology.colocated ∷ Topology.disagg ∷ []) c.topology ≡ true))
      (cell Topology.disagg ∷ [])
unfolding restrict_topologies cells to_matrix_spec topology_discrete
restrict_topologies-cells_example =
    restrict_topologies-cells milli config (codes "disagg" ∷ [])
      {c' = record config { topologies = some (Topology.disagg ∷ []) }} refl refl

abbrev request : RequestSpec
request = record {
  request_id = codes "r";
  slo_class = interactive;
  workload = chat;
  prompt_tokens = 90;
  output_tokens = 20;
  prompt_text = codes "hello";
}

abbrev traces : CellSpec → Result (List RequestSpec)
traces c = ok (request ∷ record request { output_tokens = 5 } ∷ [])

abbrev checked : PromptPreflight milli
checked = record {
  max_model_len = some 100;
  per_mix =
      record {
        mix = codes "chat";
        n_requests = 4;
        min_prompt_tokens = 90;
        mean_prompt_tokens = pos 90000;
        p95_prompt_tokens = 90;
        max_prompt_tokens = 90;
        max_prompt_plus_output_tokens = 110;
      }
      ∷ [];
}

build_prompt_preflight-TraceFits_example :
    (is_ok milli checked ≡ true)
    ↔ ((mix : Mix) → All (TraceFits milli 100 traces) (first_six mix both))
unfolding build_prompt_preflight Dict.set mix_discrete Dict.lookup ◌*ℤ◌
build_prompt_preflight-TraceFits_example =
    build_prompt_preflight-TraceFits milli 100 traces both {pf = checked} refl

abbrev measured : Measurement milli
measured = record {
  mean_ttft_ms = pos 100;
  p95_ttft_ms = pos 200;
  mean_itl_ms = pos 10;
  success_rate = pos 1000;
  cache_hit_rate = pos 0;
  thermal = record { gpu_temp_c = 60; gpu_util_pct = 50; gpu_mem_used_mb = 1000 };
  started_at = pos 0;
  duration_s = pos 30000;
}

-- The state of the world counts the measurements.
abbrev steady : CellSpec → ℕ → ℕ × Result (Measurement milli)
steady spec n = (n + 1, ok measured)

abbrev files : Directory milli
files =
    (cell_id (cell Topology.colocated), corrupt)
    ∷ (cell_id (cell Topology.disagg), valid (result_of milli (cell Topology.disagg) measured))
    ∷ []

files-IsOrderly : IsOrderly milli files
unfolding text_discrete cell_id result_of
files-IsOrderly = record {
  named = (tt, (refl, tt));
  distinct = (
    (text_ne (cell_id (cell Topology.colocated)) (cell_id (cell Topology.disagg)) refl, tt),
    (tt, tt),
  );
}

run_pending-pending_cell_specs_example :
    pending_cell_specs milli (run_pending milli steady false both 0 files).files both ≡ []
unfolding run_pending cell_id pending_cell_specs result_of decimal Dict.lookup
run_pending-pending_cell_specs_example =
    run_pending-pending_cell_specs milli steady both 0 files files-IsOrderly refl

abbrev args : Args
args = record {
  run_all = false;
  approve_cost = true;
  keep_going = false;
  allow_overflow = true;
  topologies = none;
}

abbrev clock : ℕ → ℤ
clock n = pos (1000 * n)

abbrev env : Text → Option Text
env name = some (codes "http://pod")

main-IsAuthorized_example :
    IsIdle milli clock
      (λ url. steady)
      traces
      env
      0
      files
      (main milli clock (λ url. steady) traces env args (ok config) 0 files)
    ⊎ IsAuthorized milli clock
        (λ url. steady)
        traces
        env
        args
        (ok config)
        0
        files
        (main milli clock (λ url. steady) traces env args (ok config) 0 files)
main-IsAuthorized_example =
    main-IsAuthorized milli clock (λ url. steady) traces env args (ok config) 0 files

-- The run exits by 0: its only pending cell completes.
main_code : (main milli clock (λ url. steady) traces env args (ok config) 0 files).2 ≡ ok 0
unfolding main cell_id text_discrete to_matrix_spec decimal Dict.set Dict.lookup ◌*ℤ◌ ◌+ℤ◌ ◌-ℤ◌
main_code = refl

-- Without leave to overflow it exits by 6, and without approval by 5.
main_overflow :
    (main milli clock
      (λ url. steady)
      traces
      env
      (record args { allow_overflow = false })
      (ok config)
      0
      files).2
    ≡ ok 6
unfolding main cell_id text_discrete to_matrix_spec decimal Dict.set Dict.lookup ◌*ℤ◌ ◌+ℤ◌ ◌-ℤ◌
main_overflow = refl

main_unpaid :
    (main milli clock
      (λ url. steady)
      traces
      env
      (record args { approve_cost = false })
      (ok config)
      0
      files).2
    ≡ ok 5
unfolding main cell_id text_discrete to_matrix_spec decimal Dict.set Dict.lookup ◌*ℤ◌ ◌+ℤ◌ ◌-ℤ◌
    is_space
main_unpaid = refl

abbrev campaign : CampaignReport milli
campaign = record {
  n_cells_completed = 2;
  n_cells_failed = 0;
  total_duration_s = pos 60000;
  cost_usd = pos 30;
  pod_id = codes "pod";
  started_at = pos 0;
  ended_at = pos 61000;
}

summarize-IsShared_example : IsShared milli (
    summarize milli campaign (pos 1790) (
      result_of milli (cell Topology.disagg) measured
      ∷ result_of milli (cell Topology.colocated) (record measured { success_rate = pos 0 })
      ∷ []))
summarize-IsShared_example = summarize-IsShared milli campaign (pos 1790) (
    result_of milli (cell Topology.disagg) measured
    ∷ result_of milli (cell Topology.colocated) (record measured { success_rate = pos 0 })
    ∷ [])
