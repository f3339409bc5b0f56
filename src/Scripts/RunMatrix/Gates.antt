-- ===== src/Scripts/RunMatrix/Gates.antt =====
-- Nothing runs and nothing is written before both gates are passed.
use goodputlab.Prelude.{
  ℕ, ◌≡◌, ◌≢◌, refl, subst, Bool, true, false, not, ◌&&◌, Option, none, some, List, [], ◌∷◌,
  Bool-cases, inl, inr, ◌⊎◌, All,
}
use goodputlab.Bench.Matrix.Aggregate.{CampaignSummary, is_empty}
use goodputlab.Bench.Matrix.Cells.{Mix, CellSpec, cells}
use goodputlab.Bench.Matrix.Config.{MatrixSweepConfig, to_matrix_spec}
use goodputlab.Bench.Matrix.Preflight.{
  PromptPreflight, build_prompt_preflight, is_ok, spend_approved,
}
use goodputlab.Bench.Matrix.Preflight.Fits.{TraceFits, build_prompt_preflight-TraceFits}
use goodputlab.Bench.Matrix.Preflight.Sampling.{first_six}
use goodputlab.Bench.Matrix.Sweep.{Directory, Measurement}
use goodputlab.Core.Trace.{RequestSpec}
use goodputlab.Prelude.Float.{FloatOps}
use goodputlab.Prelude.Result.{Result, ok, raise}
use goodputlab.Prelude.Text.{Text, codes}
use goodputlab.Scripts.RunMatrix.{
  Args, configure, execute, guarded, pending_of, prompted, listed, run_at, at_endpoint, configured,
  main,
}

module _ (fl : FloatOps) {World : Type 0} (clock : World → fl.F)
    (measure : Text → CellSpec → World → World × Result (Measurement fl))
    (build_trace : CellSpec → Result (List RequestSpec)) (env : Text → Option Text) where
  abbrev executed :
      Args
      → MatrixSweepConfig fl
      → Text
      → List CellSpec
      → World
      → Directory fl
      → World × Directory fl × Result ℕ × Option (CampaignSummary fl)
  executed = execute fl clock measure build_trace env

  abbrev gate :
      Args
      → MatrixSweepConfig fl
      → List CellSpec
      → PromptPreflight fl
      → World × Directory fl × Result ℕ × Option (CampaignSummary fl)
      → World
      → Directory fl
      → World × Directory fl × Result ℕ × Option (CampaignSummary fl)
  gate = guarded fl clock measure build_trace env

  -- The codes of a run that does not start.
  abbrev pub IsRefusal : Result ℕ → Type 0
  IsRefusal (raise e) = Unit
  IsRefusal (ok n) = (n ≡ 2) ⊎ ((n ≡ 5) ⊎ (n ≡ 6))

  -- Nothing was measured and no file was written.
  abbrev pub IsIdle :
      World → Directory fl → World × Directory fl × Result ℕ × Option (CampaignSummary fl) → Type 0
  IsIdle w files x = (x.0 ≡ w) × (x.1 ≡ files) × (x.3 ≡ none) × IsRefusal x.2

  -- What holds when the sweep runs.
  pub record IsCleared (args : Args) (cfg : MatrixSweepConfig fl) (files : Directory fl)
      (all : List CellSpec) : Type 0 where
    pub made : cells (to_matrix_spec fl cfg) ≡ ok all
    pub fits :
        args.allow_overflow ≡ false
        → (limit : ℕ) → cfg.max_model_len ≡ some limit
        → (mix : Mix)
        → All (TraceFits fl limit build_trace) (first_six mix (pending_of fl args files all))
    pub approved :
        (pending_of fl args files all ≡ [])
        ⊎ ((cfg.smoke ≡ true)
            ⊎ (spend_approved args.approve_cost (env (codes "APPROVE_GPU_SPEND")) ≡ true))

  approved_cases :
      (pending : List CellSpec) (smoke approved : Bool)
      → (not (is_empty pending) && (not smoke && not approved)) ≡ false
      → (pending ≡ []) ⊎ ((smoke ≡ true) ⊎ (approved ≡ true))
  approved_cases [] smoke approved h = inl refl
  approved_cases (c ∷ pending) true approved h = inr (inl refl)
  approved_cases (c ∷ pending) false true h = inr (inr refl)
  approved_cases (c ∷ pending) false false h = cc

  fits_cases :
      (fits allowed : Bool) → (not fits && not allowed) ≡ false → allowed ≡ false → fits ≡ true
  fits_cases true allowed h k = refl
  fits_cases false true h k = cc
  fits_cases false false h k = cc

  abbrev Cleared :
      Args
      → MatrixSweepConfig fl
      → Text
      → World
      → Directory fl
      → World × Directory fl × Result ℕ × Option (CampaignSummary fl)
      → Type 0
  Cleared args cfg url w files x =
      (all : List CellSpec) × IsCleared args cfg files all × (x ≡ executed args cfg url all w files)

  guarded-Cleared :
      (args : Args) (cfg : MatrixSweepConfig fl) (url : Text) (w : World) (files : Directory fl)
      (all : List CellSpec) (prompts : PromptPreflight fl)
      → cells (to_matrix_spec fl cfg) ≡ ok all
      → build_prompt_preflight fl build_trace (pending_of fl args files all) cfg.max_model_len
        ≡ ok prompts
      → IsIdle w files (
          gate args cfg
            (pending_of fl args files all)
            prompts
            (executed args cfg url all w files)
            w
            files)
        ⊎ Cleared args cfg url w files (
            gate args cfg
              (pending_of fl args files all)
              prompts
              (executed args cfg url all w files)
              w
              files)
  unfolding guarded
  guarded-Cleared args cfg url w files all prompts made checked =
      let pending = pending_of fl args files all in
      let approval = spend_approved args.approve_cost (env (codes "APPROVE_GPU_SPEND")) in
      elim (Bool-cases (not (is_ok fl prompts) && not args.allow_overflow)) [
        | inl over ↦ inl (rw over (refl, refl, refl, inr (inr refl)))
        | inr fine ↦ elim (Bool-cases (not (is_empty pending) && (not cfg.smoke && not approval))) [
          | inl unpaid ↦ inl (rw (fine, unpaid) (refl, refl, refl, inr (inl refl)))
          | inr paid ↦ inr (
            all,
            record {
              made = made;
              fits = λ strict limit bound mix.
                  let tested =
                    subst (λ m. build_prompt_preflight fl build_trace pending m ≡ ok prompts) bound
                      checked in
                  (build_prompt_preflight-TraceFits fl limit build_trace pending tested).0
                    (fits_cases (is_ok fl prompts) args.allow_overflow fine strict) mix;
              approved = approved_cases pending cfg.smoke approval paid;
            },
            rw (fine, paid) refl,
          )
        ]
      ]

  prompted-Cleared :
      (args : Args) (cfg : MatrixSweepConfig fl) (url : Text) (w : World) (files : Directory fl)
      (all : List CellSpec) (r : Result (PromptPreflight fl))
      → cells (to_matrix_spec fl cfg) ≡ ok all
      → build_prompt_preflight fl build_trace (pending_of fl args files all) cfg.max_model_len ≡ r
      → IsIdle w files (prompted fl clock measure build_trace env args cfg url all w files r)
        ⊎ Cleared args cfg url w files
            (prompted fl clock measure build_trace env args cfg url all w files r)
  unfolding prompted
  prompted-Cleared args cfg url w files all (raise e) made checked = inl (refl, refl, refl, tt)
  prompted-Cleared args cfg url w files all (ok prompts) made checked =
      guarded-Cleared args cfg url w files all prompts made checked

  listed-Cleared :
      (args : Args) (cfg : MatrixSweepConfig fl) (url : Text) (w : World) (files : Directory fl)
      (r : Result (List CellSpec))
      → cells (to_matrix_spec fl cfg) ≡ r
      → IsIdle w files (listed fl clock measure build_trace env args cfg url w files r)
        ⊎ Cleared args cfg url w files
            (listed fl clock measure build_trace env args cfg url w files r)
  unfolding listed
  listed-Cleared args cfg url w files (raise e) made = inl (refl, refl, refl, tt)
  listed-Cleared args cfg url w files (ok all) made =
      prompted-Cleared args cfg url w files all _ made refl

  run_at-Cleared :
      (args : Args) (cfg : MatrixSweepConfig fl) (url : Text) (w : World) (files : Directory fl)
      → IsIdle w files (run_at fl clock measure build_trace env args cfg url w files)
        ⊎ Cleared args cfg url w files
            (run_at fl clock measure build_trace env args cfg url w files)
  unfolding run_at
  run_at-Cleared args cfg url w files = listed-Cleared args cfg url w files _ refl

  -- The run of a loaded configuration at an endpoint, with all gates passed.
  pub record IsAuthorized (args : Args) (loaded : Result (MatrixSweepConfig fl)) (w : World)
      (files : Directory fl) (x : World × Directory fl × Result ℕ × Option (CampaignSummary fl))
      : Type 0 where
    pub given : MatrixSweepConfig fl
    pub cfg : MatrixSweepConfig fl
    pub url : Text
    pub all : List CellSpec
    pub is_loaded : loaded ≡ ok given
    pub is_configured : configure fl args given ≡ ok (some cfg)
    pub endpoint : env cfg.vllm_base_url_env ≡ some url
    pub is_url : url ≢ []
    pub cleared : IsCleared args cfg files all
    pub ran : x ≡ execute fl clock measure build_trace env args cfg url all w files

  at_endpoint-IsAuthorized :
      (args : Args) (given cfg : MatrixSweepConfig fl) (w : World) (files : Directory fl)
      (url : Option Text)
      → configure fl args given ≡ ok (some cfg)
      → env cfg.vllm_base_url_env ≡ url
      → IsIdle w files (at_endpoint fl clock measure build_trace env args cfg url w files)
        ⊎ IsAuthorized args
            (ok given)
            w
            files
            (at_endpoint fl clock measure build_trace env args cfg url w files)
  at_endpoint-IsAuthorized args given cfg w files none set found = inl (refl, refl, refl, inl refl)
  at_endpoint-IsAuthorized args given cfg w files (some []) set found =
      inl (refl, refl, refl, inl refl)
  at_endpoint-IsAuthorized args given cfg w files (some (c ∷ url)) set found =
      elim (run_at-Cleared args cfg (c ∷ url) w files) [
        | inl idle ↦ inl idle
        | inr (all, cleared, ran) ↦ inr (record {
          given = given;
          cfg = cfg;
          url = c ∷ url;
          all = all;
          is_loaded = refl;
          is_configured = set;
          endpoint = found;
          is_url = λ e. cc;
          cleared = cleared;
          ran = ran;
        })
      ]

  configured-IsAuthorized :
      (args : Args) (given : MatrixSweepConfig fl) (w : World) (files : Directory fl)
      (r : Result (Option (MatrixSweepConfig fl)))
      → configure fl args given ≡ r
      → IsIdle w files (configured fl clock measure build_trace env args r w files)
        ⊎ IsAuthorized args
            (ok given)
            w
            files
            (configured fl clock measure build_trace env args r w files)
  configured-IsAuthorized args given w files (raise e) set = inl (refl, refl, refl, tt)
  configured-IsAuthorized args given w files (ok none) set = inl (refl, refl, refl, inl refl)
  configured-IsAuthorized args given w files (ok (some cfg)) set =
      at_endpoint-IsAuthorized args given cfg w files (env cfg.vllm_base_url_env) set refl

  -- The command either measures nothing, writes nothing and exits by code 2, 5 or 6 or raises, or
  -- it runs the sweep of a loaded configuration, restricted if that was asked for, at an endpoint
  -- that is set. Then the spend is approved unless the configuration is a smoke test or no cell is
  -- pending, and unless an overflow is allowed, every request of the traces of the first six
  -- pending cells of each mix fits into the configured length, if there is one.
  pub main-IsAuthorized :
      (args : Args) (loaded : Result (MatrixSweepConfig fl)) (w : World) (files : Directory fl)
      → IsIdle w files (main fl clock measure build_trace env args loaded w files)
        ⊎ IsAuthorized args loaded w files
            (main fl clock measure build_trace env args loaded w files)
  unfolding main
  main-IsAuthorized args (raise e) w files = inl (refl, refl, refl, tt)
  main-IsAuthorized args (ok cfg) w files =
      configured-IsAuthorized args cfg w files (configure fl args cfg) refl
