-- ===== src/Tests/Matrix.antt =====
-- A matrix of two cells, and a sweep over them that finds one result and fails at the other.
use goodputlab.Prelude.{ℕ, zero, suc, ◌≡◌, refl, false, List, [], ◌∷◌, length, All}
use goodputlab.Bench.Matrix.Cells.{
  Topology, Model, Mix, CellSpec, MatrixSpec, cells, total_cells, cell_id, derive_seed,
}
use goodputlab.Bench.Matrix.Cells.Count.{IsSound, cells-total_cells}
use goodputlab.Bench.Matrix.Sweep.{Measurement, valid, Sweep, sweep, start, result_of}
use goodputlab.Bench.Matrix.Sweep.Resume.{IsAccounted, sweep-IsAccounted}
use goodputlab.Prelude.Int.{pos}
use goodputlab.Prelude.Result.{Result, ok, raise, runtime_error}
use goodputlab.Tests.Floats.{milli}

abbrev matrix : MatrixSpec
matrix = record {
  topologies = Topology.colocated ∷ [];
  models = Model.qwen3_1_7b ∷ [];
  rates_rps = 1 ∷ 8 ∷ [];
  mixes = Mix.chat ∷ [];
  n_warmup = 5;
  n_measure = 30;
}

abbrev cell : ℕ → CellSpec
cell rate = record {
  topology = Topology.colocated;
  model = Model.qwen3_1_7b;
  rate_rps = rate;
  mix = Mix.chat;
  n_warmup = 5;
  n_measure = 30;
  seed = derive_seed Topology.colocated Model.qwen3_1_7b rate Mix.chat;
}

abbrev two_cells : List CellSpec
two_cells = cell 1 ∷ cell 8 ∷ []

cells-total_cells_example : (length two_cells ≡ total_cells matrix) × All IsSound two_cells
unfolding cells
cells-total_cells_example = cells-total_cells matrix refl

abbrev measured : Measurement milli
measured = record {
  mean_ttft_ms = pos 100;
  p95_ttft_ms = pos 200;
  mean_itl_ms = pos 10;
  success_rate = pos 1000;
  cache_hit_rate = pos 0;
  thermal = record { gpu_temp_c = 60; gpu_util_pct = 50; gpu_mem_used_mb = 1000 };
  started_at = pos 0;
  duration_s = pos 30000;
}

-- The first measurement fails, and the later ones do not.
abbrev flaky : CellSpec → ℕ → ℕ × Result (Measurement milli)
flaky spec zero = (1, raise runtime_error)
flaky spec (suc n) = (suc (suc n), ok measured)

abbrev before : Sweep milli flaky
before = start milli flaky 0 ((cell_id (cell 1), valid (result_of milli (cell 1) measured)) ∷ [])

sweep-IsAccounted_example :
    IsAccounted milli flaky two_cells before (sweep milli flaky false two_cells before)
sweep-IsAccounted_example = sweep-IsAccounted milli flaky two_cells before
