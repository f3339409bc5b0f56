-- ===== src/Scripts/RunMatrix.antt =====
-- scripts/run_matrix.py: the command that runs a sweep, with its gates. The loaded configuration,
-- the environment, the clock, the measurement of a cell at an endpoint and the traces are
-- arguments; what it prints is left out. The directory is the configuration's output directory.
pub mod Gates
pub mod Exits
use goodputlab.Prelude.{
  ℕ, zero, suc, Bool, true, false, not, ◌&&◌, ◌||◌, Option, none, some, List, [], ◌∷◌, ◌++◌, ◌==◌,
  if◌then◌else◌, map,
}
use goodputlab.Bench.Matrix.Aggregate.{
  CampaignReport, CampaignSummary, check_report, write_summary, is_empty,
}
use goodputlab.Bench.Matrix.Cells.{CellSpec, cells, total_cells}
use goodputlab.Bench.Matrix.Config.{MatrixSweepConfig, restrict_topologies, to_matrix_spec}
use goodputlab.Bench.Matrix.Preflight.{
  PromptPreflight, build_prompt_preflight, is_ok, spend_approved,
}
use goodputlab.Bench.Matrix.Sweep.{
  Directory, corrupt, Measurement, Sweep, pending_cell_specs, run_all, run_pending, campaign_cost,
}
use goodputlab.Core.Trace.{RequestSpec}
use goodputlab.Prelude.Dict
use goodputlab.Prelude.Float.{FloatOps}
use goodputlab.Prelude.Result.{Result, ok, raise, Error, value_error}
use goodputlab.Prelude.Sort.{filter}
use goodputlab.Prelude.Text.{Text, codes, strip, text_discrete}

pub record Args : Type 0 where
  pub run_all : Bool
  pub approve_cost : Bool
  pub keep_going : Bool
  pub allow_overflow : Bool
  pub topologies : Option Text

-- `s.split(sep)`, behind the characters of the current part.
abbrev pub split_from : ℕ → Text → Text → List Text
split_from sep part [] = part ∷ []
split_from sep part (c ∷ s) =
    let more = split_from sep [] s in
    let same = split_from sep (part ++ c ∷ []) s in if c == sep then part ∷ more else same

unfoldable pub names_of : Text → List Text
unfolding strip filter
names_of s = filter (λ t. not (is_empty t)) (map strip (split_from b',' [] s))

-- `stop_on_unreconciled`
abbrev pub stops : Args → Bool
stops args = not args.keep_going

module _ (fl : FloatOps) where
  open fl use {F, sub}

  -- The configuration that the run is for, or the exit by code 2.
  abbrev pub or_exit : Result (MatrixSweepConfig fl) → Result (Option (MatrixSweepConfig fl))
  or_exit (ok cfg) = ok (some cfg)
  or_exit (raise Error.value_error) = ok none
  or_exit (raise e) = raise e

  unfoldable pub configure : Args → MatrixSweepConfig fl → Result (Option (MatrixSweepConfig fl))
  unfolding names_of restrict_topologies
  configure args cfg = elim args.topologies [
    | none ↦ ok (some cfg)
    | some [] ↦ ok (some cfg)
    | some (c ∷ s) ↦ or_exit (restrict_topologies fl cfg (names_of (c ∷ s)))
  ]

  -- The cells that the run is for.
  abbrev pub pending_of : Args → Directory fl → List CellSpec → List CellSpec
  pending_of args files all = if args.run_all then all else pending_cell_specs fl files all

  -- `preflight.json` is no result.
  abbrev pub with_preflight : Directory fl → Directory fl
  with_preflight files = Dict.set text_discrete (codes "preflight") corrupt files

  module _ {World : Type 0} (clock : World → F)
      (measure : Text → CellSpec → World → World × Result (Measurement fl))
      (build_trace : CellSpec → Result (List RequestSpec)) (env : Text → Option Text) where
    -- The state of the world, the directory, the exit code or the exception, and the content of
    -- `summary.json` if the command writes it.
    abbrev pub Outcome : Type 0
    Outcome = World × Directory fl × Result ℕ × Option (CampaignSummary fl)

    -- The exit after `write_summary`.
    abbrev pub summarized :
        World → Directory fl → ℕ → Result (Directory fl × CampaignSummary fl) → Outcome
    summarized w files n_failed (ok (files', content)) =
        (w, files', ok (if n_failed == 0 then 0 else 1), some content)
    summarized w files n_failed (raise Error.value_error) = (w, files, ok 4, none)
    summarized w files n_failed (raise e) = (w, files, raise e, none)

    -- What follows the report of the sweep.
    unfoldable pub reported :
        MatrixSweepConfig fl
        → (url : Text) → Sweep fl (measure url)
        → Result (CampaignReport fl)
        → Outcome
    unfolding write_summary
    reported cfg url s (raise e) = (s.world, s.files, raise e, none)
    reported cfg url s (ok campaign) =
        if s.n_completed == 0
        then (s.world, s.files, ok 3, none)
        else summarized s.world s.files s.n_failed
            (write_summary fl s.files campaign cfg.cost_per_hour_usd)

    -- What follows the sweep.
    unfoldable pub report :
        MatrixSweepConfig fl → F → (url : Text) → Sweep fl (measure url) → Outcome
    unfolding check_report reported campaign_cost
    report cfg started url s =
        let ended = clock s.world in
        reported cfg url s (
          check_report fl (record {
            n_cells_completed = s.n_completed;
            n_cells_failed = s.n_failed;
            total_duration_s = s.total_duration_s;
            cost_usd = campaign_cost fl (sub ended started) cfg.cost_per_hour_usd;
            pod_id = cfg.pod_id;
            started_at = started;
            ended_at = ended;
          }))

    -- The state at the end of the sweep.
    unfoldable pub swept :
        Args → (url : Text) → List CellSpec → World → Directory fl → Sweep fl (measure url)
    unfolding run_all run_pending
    swept args url all w files =
        if args.run_all
        then run_all fl (measure url) (stops args) all w (with_preflight files)
        else run_pending fl (measure url) (stops args) all w (with_preflight files)

    unfoldable pub execute :
        Args → MatrixSweepConfig fl → Text → List CellSpec → World → Directory fl → Outcome
    unfolding report swept
    execute args cfg url all w files = report cfg (clock w) url (swept args url all w files)

    -- The two gates, in their order.
    unfoldable pub guarded :
        Args
        → MatrixSweepConfig fl
        → List CellSpec
        → PromptPreflight fl
        → Outcome
        → World
        → Directory fl
        → Outcome
    unfolding is_ok spend_approved
    guarded args cfg pending prompts run w files =
        if not (is_ok fl prompts) && not args.allow_overflow
        then (w, files, ok 6, none)
        else if not (is_empty pending)
            && (not cfg.smoke
                && not (spend_approved args.approve_cost (env (codes "APPROVE_GPU_SPEND"))))
        then (w, files, ok 5, none)
        else run

    -- The run, from the prompt preflight on.
    unfoldable pub prompted :
        Args
        → MatrixSweepConfig fl
        → Text
        → List CellSpec
        → World
        → Directory fl
        → Result (PromptPreflight fl)
        → Outcome
    unfolding guarded execute
    prompted args cfg url all w files (raise e) = (w, files, raise e, none)
    prompted args cfg url all w files (ok prompts) =
        guarded args cfg (pending_of args files all) prompts (execute args cfg url all w files) w
          files

    -- The run, from the cells of the matrix on.
    unfoldable pub listed :
        Args → MatrixSweepConfig fl → Text → World → Directory fl → Result (List CellSpec) → Outcome
    unfolding prompted build_prompt_preflight pending_cell_specs
    listed args cfg url w files (raise e) = (w, files, raise e, none)
    listed args cfg url w files (ok all) =
        prompted args cfg url all w files
          (build_prompt_preflight fl build_trace (pending_of args files all) cfg.max_model_len)

    unfoldable pub run_at : Args → MatrixSweepConfig fl → Text → World → Directory fl → Outcome
    unfolding listed cells
    run_at args cfg url w files = listed args cfg url w files (cells (to_matrix_spec fl cfg))

    -- Without an endpoint there is no run.
    abbrev pub at_endpoint :
        Args → MatrixSweepConfig fl → Option Text → World → Directory fl → Outcome
    at_endpoint args cfg none w files = (w, files, ok 2, none)
    at_endpoint args cfg (some []) w files = (w, files, ok 2, none)
    at_endpoint args cfg (some (c ∷ url)) w files = run_at args cfg (c ∷ url) w files

    abbrev pub configured :
        Args → Result (Option (MatrixSweepConfig fl)) → World → Directory fl → Outcome
    configured args (raise e) w files = (w, files, raise e, none)
    configured args (ok none) w files = (w, files, ok 2, none)
    configured args (ok (some cfg)) w files =
        at_endpoint args cfg (env cfg.vllm_base_url_env) w files

    -- `main`, from the loaded configuration on.
    unfoldable pub main : Args → Result (MatrixSweepConfig fl) → World → Directory fl → Outcome
    unfolding configure run_at
    main args loaded w files = elim loaded [
      | raise e ↦ (w, files, raise e, none)
      | ok cfg ↦ configured args (configure args cfg) w files
    ]
