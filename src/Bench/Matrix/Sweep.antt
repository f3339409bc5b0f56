-- ===== src/Bench/Matrix/Sweep.antt =====
-- bench/cell_runner.py and bench/runpod_matrix.py: the run of one cell over the directory of
-- results, and the sweep. A directory is a dictionary from file stems to what a file holds. The
-- measurement of a cell (client, replay, clock and GPU readings) is a parameter that changes a
-- state of the world and may raise.
pub mod Resume
pub mod Names
pub mod Finished
use goodputlab.Prelude.{
  is_yes, ℕ, zero, suc, ◌+◌, Bool, true, false, not, ◌&&◌, ◌||◌, Option, none, some, List, [], ◌∷◌,
  if◌then◌else◌,
}
use goodputlab.Bench.Matrix.Cells.{Topology, Model, Mix, CellSpec, cell_id}
use goodputlab.Prelude.Dict
use goodputlab.Prelude.Float.{FloatOps}
use goodputlab.Prelude.Int.{ℤ, pos}
use goodputlab.Prelude.Result.{Result, ok, raise}
use goodputlab.Prelude.Sort.{filter}
use goodputlab.Prelude.Text.{Text, codes, text_discrete}

-- The names of the files beside the results.
unfoldable pub is_sidecar : Text → Bool
unfolding text_discrete
is_sidecar stem =
    is_yes (text_discrete stem (codes "summary")) || is_yes (text_discrete stem (codes "preflight"))

-- `key in names`
unfoldable pub member : Text → List Text → Bool
unfolding text_discrete
member key [] = false
member key (name ∷ names) = is_yes (text_discrete name key) || member key names

module _ (fl : FloatOps) where
  open fl use {F, of_int, add, div, mul, le, true_div}

  pub record ThermalReading : Type 0 where
    pub gpu_temp_c : ℕ
    pub gpu_util_pct : ℕ
    pub gpu_mem_used_mb : ℕ

  -- What `_execute` measures.
  pub record Measurement : Type 0 where
    pub mean_ttft_ms : F
    pub p95_ttft_ms : F
    pub mean_itl_ms : F
    pub success_rate : F
    pub cache_hit_rate : F
    pub thermal : ThermalReading
    pub started_at : F
    pub duration_s : F

  -- The fields of a result that repeat its specification are kept as the specification. The
  -- notes, which are always empty, are left out.
  pub record CellResult : Type 0 where
    pub id : Text
    pub spec : CellSpec
    pub measured : Measurement
    pub reconcile_passes : Bool

  -- What a file of results holds: a text that does not parse, or a result.
  pub data Stored : Type 0 where
    corrupt : Stored
    valid : CellResult → Stored

  abbrev pub Directory : Type 0
  Directory = List (Text × Stored)

  -- The dry-run gate: `success_rate >= 0.99`.
  unfoldable pub result_of : CellSpec → Measurement → CellResult
  result_of spec m = record {
    id = cell_id spec;
    spec = spec;
    measured = m;
    reconcile_passes = le (true_div (pos 99) (pos 100)) m.success_rate;
  }

  -- `sink.write`, under the name that the result carries.
  unfoldable pub write : CellResult → Directory → Directory
  write r files = Dict.set text_discrete r.id (valid r) files

  -- The ids that `pending_cell_specs` collects.
  unfoldable pub existing : Directory → List Text
  unfolding is_sidecar text_discrete
  existing [] = []
  existing ((stem, corrupt) ∷ files) = existing files
  existing ((stem, valid r) ∷ files) =
      let rest = existing files in
      if is_sidecar stem
      then rest
      else if is_yes (text_discrete r.id stem)
      then r.id ∷ rest
      else rest

  unfoldable pub pending_cell_specs : Directory → List CellSpec → List CellSpec
  unfolding filter member existing
  pending_cell_specs files all = filter (λ c. not (member (cell_id c) (existing files))) all

  module _ {World : Type 0} (measure : CellSpec → World → World × Result Measurement) where
    -- The end of `_execute`.
    unfoldable pub store_result :
        CellSpec → Directory → World × Result Measurement → World × Directory × Result CellResult
    unfolding result_of write
    store_result spec files (w, raise e) = (w, files, raise e)
    store_result spec files (w, ok m) = (w, write (result_of spec m) files, ok (result_of spec m))

    unfoldable pub execute : CellSpec → World → Directory → World × Directory × Result CellResult
    unfolding store_result
    execute spec w files = store_result spec files (measure spec w)

    -- The result of a file that loads, or else the run of the cell.
    unfoldable pub load_or_execute :
        CellSpec → World → Directory → Option Stored → World × Directory × Result CellResult
    unfolding execute
    load_or_execute spec w files (some (valid r)) = (w, files, ok r)
    load_or_execute spec w files (some corrupt) = execute spec w files
    load_or_execute spec w files none = execute spec w files

    unfoldable pub run_cell : CellSpec → World → Directory → World × Directory × Result CellResult
    unfolding load_or_execute
    run_cell spec w files =
        load_or_execute spec w files (Dict.lookup text_discrete (cell_id spec) files)

    -- The state of the loop of `_run`.
    pub record Sweep : Type 0 where
      pub world : World
      pub files : Directory
      pub n_completed : ℕ
      pub n_failed : ℕ
      pub total_duration_s : F

    unfoldable pub fail : Sweep → World × Directory → Sweep
    fail s (w, files) = record s { world = w; files = files; n_failed = suc s.n_failed }

    unfoldable pub complete : Sweep → World × Directory → CellResult → Sweep
    complete s (w, files) r = record s {
      world = w;
      files = files;
      n_completed = suc s.n_completed;
      total_duration_s = add s.total_duration_s r.measured.duration_s;
    }

    -- One turn of the loop: the state after it, and whether it breaks.
    unfoldable pub count : Bool → Sweep → World × Directory × Result CellResult → Sweep × Bool
    unfolding fail complete
    count stop s (w, files, raise e) = (fail s (w, files), stop)
    count stop s (w, files, ok r) = (complete s (w, files) r, stop && not r.reconcile_passes)

    unfoldable pub sweep : Bool → List CellSpec → Sweep → Sweep
    unfolding count run_cell
    sweep stop [] s = s
    sweep stop (spec ∷ specs) s =
        let (s', broken) = count stop s (run_cell spec s.world s.files) in
        let rest = sweep stop specs s' in if broken then s' else rest

    unfoldable pub start : World → Directory → Sweep
    start w files = record {
      world = w;
      files = files;
      n_completed = 0;
      n_failed = 0;
      total_duration_s = of_int (pos 0);
    }

    unfoldable pub run_all : Bool → List CellSpec → World → Directory → Sweep
    unfolding sweep start
    run_all stop all w files = sweep stop all (start w files)

    unfoldable pub run_pending : Bool → List CellSpec → World → Directory → Sweep
    unfolding sweep start pending_cell_specs
    run_pending stop all w files = sweep stop (pending_cell_specs files all) (start w files)

  -- `(wall_s / 3600.0) * cost_per_hour`
  unfoldable pub campaign_cost : F → F → F
  campaign_cost wall_s cost_per_hour = mul (div wall_s (of_int (pos 3600))) cost_per_hour
