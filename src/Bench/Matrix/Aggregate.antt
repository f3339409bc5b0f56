-- ===== src/Bench/Matrix/Aggregate.antt =====
-- bench/matrix_aggregator.py: from the directory of results to the summary of a campaign. A
-- summary is kept as its content, and its file as one that holds no result of a cell. `sum` adds
-- from the left.

pub mod Complete
pub mod Totals
use goodputlab.Prelude.{
  ℕ, zero, suc, ◌+◌, ◌-◌, Bool, true, false, not, ◌&&◌, Option, none, some, List, [], ◌∷◌, ◌++◌,
  map, ltb, ◌==◌, if◌then◌else◌, length, is_yes,
}
use goodputlab.Bench.KvScaling.Fit.{sum}
use goodputlab.Bench.Matrix.Cells.{Topology, topology_value}
use goodputlab.Bench.Matrix.Summary.{SummaryStats, from_results, has_thermal_warning, reconciled}
use goodputlab.Bench.Matrix.Sweep.{CellResult, Stored, corrupt, valid, Directory}
use goodputlab.Prelude.Dict
use goodputlab.Prelude.Float.{FloatOps}
use goodputlab.Prelude.Int.{pos}
use goodputlab.Prelude.Result.{Result, ok, raise, value_error, raise_if, ◌>>=◌, ◌>>◌}
use goodputlab.Prelude.Sort.{filter, sort}
use goodputlab.Prelude.Text.{Text, codes, text_discrete, text_leb}
use mathlib.Core.Option

unfoldable pub topology_discrete : Discrete Topology
topology_discrete = Topology.discrete_by_fields

abbrev pub is_empty {ℓ} : {A : Type ℓ} → List A → Bool
is_empty [] = true
is_empty (_ ∷ _) = false

module _ (fl : FloatOps) where
  open fl use {F, of_int, add, mul, div, le}

  pub record CampaignReport : Type 0 where
    pub n_cells_completed : ℕ
    pub n_cells_failed : ℕ
    pub total_duration_s : F
    pub cost_usd : F
    pub pod_id : Text
    pub started_at : F
    pub ended_at : F

  -- The validation of `CampaignReport`.
  unfoldable pub check_report : CampaignReport → Result CampaignReport
  check_report r =
      if le (of_int (pos 0)) r.total_duration_s && le (of_int (pos 0)) r.cost_usd
      then ok r
      else raise value_error

  -- The order of the paths.
  abbrev pub path_leb : Text × Stored fl → Text × Stored fl → Bool
  path_leb a b = text_leb (a.0 ++ codes ".json") (b.0 ++ codes ".json")

  abbrev pub id_leb : CellResult fl → CellResult fl → Bool
  id_leb a b = text_leb a.id b.id

  -- The loop of `aggregate`.
  unfoldable pub load_all : Directory fl → Result (List (CellResult fl))
  unfolding text_discrete
  load_all [] = ok []
  load_all ((stem, corrupt) ∷ files) = load_all files
  load_all ((stem, valid r) ∷ files) = do
    raise_if (not (is_yes (text_discrete r.id stem))) value_error
    rest ← load_all files
    ok (r ∷ rest)

  unfoldable pub aggregate : Directory fl → Result (List (CellResult fl))
  unfolding load_all sort text_leb
  aggregate files = do
    raise_if (is_empty files) value_error
    results ← load_all (sort path_leb files)
    raise_if (is_empty results) value_error
    ok (sort id_leb results)

  abbrev pub Groups : Type 0
  Groups = List (Topology × List (CellResult fl))

  -- `grouped[r.topology].append(r)`
  unfoldable pub add_result : CellResult fl → Groups → Groups
  add_result r groups =
      let topology = r.spec.topology in
      let group = Option.get_or (Dict.lookup topology_discrete topology groups) [] in
      Dict.set topology_discrete topology (group ++ r ∷ []) groups

  unfoldable pub per_topology_breakdown : List (CellResult fl) → Groups → Groups
  unfolding add_result
  per_topology_breakdown [] groups = groups
  per_topology_breakdown (r ∷ rs) groups = per_topology_breakdown rs (add_result r groups)

  unfoldable pub cost_per_cell : F → F → F
  cost_per_cell cost_per_hour duration_s = mul (div duration_s (of_int (pos 3600))) cost_per_hour

  unfoldable pub total_cost : F → List (CellResult fl) → F
  unfolding cost_per_cell
  total_cost cost_per_hour rs =
      sum fl (map (λ r. cost_per_cell cost_per_hour r.measured.duration_s) rs) (of_int (pos 0))

  pub record TopologyStats : Type 0 where
    pub topology : Text
    pub n_cells : ℕ
    pub n_reconciled : ℕ
    pub mean_ttft_ms : F
    pub mean_itl_ms : F
    pub success_rate : F
    pub n_unreconciled : ℕ
    pub n_thermal_warnings : ℕ
    pub total_cost_usd : F

  -- The mean of some results, and 0.0 of none.
  abbrev mean_of : (CellResult fl → F) → List (CellResult fl) → F
  mean_of value [] = of_int (pos 0)
  mean_of value (r ∷ rs) =
      div (sum fl (map value (r ∷ rs)) (of_int (pos 0))) (of_int (pos (length (r ∷ rs))))

  unfoldable pub topology_stats : F → Topology × List (CellResult fl) → TopologyStats
  unfolding reconciled has_thermal_warning total_cost
  topology_stats cost_per_hour (topology, cells) = record {
    topology = topology_value topology;
    n_cells = length cells;
    n_reconciled = length (reconciled fl cells);
    mean_ttft_ms = mean_of (λ r. r.measured.mean_ttft_ms) (reconciled fl cells);
    mean_itl_ms = mean_of (λ r. r.measured.mean_itl_ms) (reconciled fl cells);
    success_rate = mean_of (λ r. r.measured.success_rate) (reconciled fl cells);
    n_unreconciled = length cells - length (reconciled fl cells);
    n_thermal_warnings = length (filter (has_thermal_warning fl) cells);
    total_cost_usd = total_cost cost_per_hour cells;
  }

  abbrev pub value_leb : Topology × List (CellResult fl) → Topology × List (CellResult fl) → Bool
  value_leb a b = text_leb (topology_value a.0) (topology_value b.0)

  -- The content of `summary.json`.
  pub record CampaignSummary : Type 0 where
    pub campaign : CampaignReport
    pub summary : SummaryStats fl
    pub per_topology : List TopologyStats
    pub per_hour_usd : F
    pub n_cells : ℕ
    pub total_usd : F

  unfoldable pub summarize : CampaignReport → F → List (CellResult fl) → CampaignSummary
  unfolding from_results per_topology_breakdown topology_stats total_cost sort text_leb
  summarize campaign cost_per_hour results = record {
    campaign = campaign;
    summary = from_results fl results;
    per_topology =
        map (topology_stats cost_per_hour) (sort value_leb (per_topology_breakdown results []));
    per_hour_usd = cost_per_hour;
    n_cells = length results;
    total_usd = total_cost cost_per_hour results;
  }

  -- `write_summary`: the directory after it, and the content that it wrote.
  unfoldable pub write_summary :
      Directory fl → CampaignReport → F → Result (Directory fl × CampaignSummary)
  unfolding aggregate summarize
  write_summary files campaign cost_per_hour = do
    results ← aggregate files
    ok (
      Dict.set text_discrete (codes "summary") corrupt files,
      summarize campaign cost_per_hour results,
    )
