-- ===== src/Scripts/RunMatrix/Exits.antt =====
-- How a run of the command that passes its gates ends.
use goodputlab.Prelude.{ℕ, ◌<◌, ◌≡◌, Option, none, some, length, List, if◌then◌else◌, ◌==◌}
use goodputlab.Bench.Matrix.Aggregate.{CampaignSummary, total_cost, aggregate}
use goodputlab.Bench.Matrix.Aggregate.Complete.{IsTable}
use goodputlab.Bench.Matrix.Aggregate.Totals.{IsShared}
use goodputlab.Bench.Matrix.Summary.{from_results}
use goodputlab.Bench.Matrix.Cells.{CellSpec}
use goodputlab.Bench.Matrix.Config.{MatrixSweepConfig}
use goodputlab.Bench.Matrix.Sweep.{Directory, CellResult, Measurement, Sweep, corrupt}
use goodputlab.Core.Trace.{RequestSpec}
use goodputlab.Prelude.Dict
use goodputlab.Prelude.Float.{FloatOps}
use goodputlab.Prelude.Result.{Result, ok, raise, Error}
use goodputlab.Prelude.Text.{Text, codes, text_discrete}
use goodputlab.Scripts.RunMatrix.{Args, swept, configure}

module _ (fl : FloatOps) {World : Type 0} (clock : World → fl.F)
    (measure : Text → CellSpec → World → World × Result (Measurement fl))
    (build_trace : CellSpec → Result (List RequestSpec)) (env : Text → Option Text) where
  abbrev Outcome : Type 0
  Outcome = World × Directory fl × Result ℕ × Option (CampaignSummary fl)

  -- The content of `summary.json` after a sweep: the counts of the sweep, and the statistics, the
  -- topologies' shares and the cost of the results `rs`.
  pub record IsWritten (cost_per_hour : fl.F) (url : Text) (s : Sweep fl (measure url))
      (rs : List (CellResult fl)) (content : CampaignSummary fl) : Type 0 where
    pub completed : content.campaign.n_cells_completed ≡ s.n_completed
    pub failed : content.campaign.n_cells_failed ≡ s.n_failed
    pub n_cells : content.n_cells ≡ length rs
    pub statistics : content.summary ≡ from_results fl rs
    pub shared : IsShared fl content
    pub total_usd : content.total_usd ≡ total_cost fl cost_per_hour rs

  -- How the command ends after a sweep: it raises, or it exits by 3 with no cell completed, or
  -- it leaves a summary of the results beside them, and exits by 0 just when no cell failed.
  pub data Ends (cost_per_hour : fl.F) (url : Text) (s : Sweep fl (measure url)) (x : Outcome)
      : Type 0 where
    raises : (e : Error) → x.1 ≡ s.files → x.2 ≡ raise e → x.3 ≡ none → Ends cost_per_hour url s x
    empty : s.n_completed ≡ 0 → x.1 ≡ s.files → x.2 ≡ ok 3 → x.3 ≡ none → Ends cost_per_hour url s x
    summed :
        0 < s.n_completed
        → (rs : List (CellResult fl)) (content : CampaignSummary fl) → aggregate fl s.files ≡ ok rs
        → IsTable fl s.files rs
        → x.1 ≡ Dict.set text_discrete (codes "summary") corrupt s.files
        → x.2 ≡ ok (if s.n_failed == 0 then 0 else 1)
        → x.3 ≡ some content
        → IsWritten cost_per_hour url s rs content
        → Ends cost_per_hour url s x

  -- The command in an orderly directory: it is refused, or its sweep ends as above.
  pub record IsSettled (args : Args) (loaded : Result (MatrixSweepConfig fl)) (w : World)
      (files : Directory fl) (x : Outcome) : Type 0 where
    pub given : MatrixSweepConfig fl
    pub cfg : MatrixSweepConfig fl
    pub is_loaded : loaded ≡ ok given
    pub is_configured : configure fl args given ≡ ok (some cfg)
    pub url : Text
    pub all : List CellSpec
    pub ending :
        Ends cfg.cost_per_hour_usd url
          (swept fl clock measure build_trace env args url all w files)
          x
