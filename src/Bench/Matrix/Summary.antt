-- ===== src/Bench/Matrix/Summary.antt =====
-- bench/schema/cell_schema.py: `SummaryStats.from_results`.
use goodputlab.Prelude.{
  ℕ, ◌+◌, ◌-◌, ◌≤◌, ◌≡◌, ◌↔◌, refl, sym, ap, ◌∙◌, Bool, true, List, [], ◌∷◌, ltb, ◌==◌, arith,
  length, All,
}
use goodputlab.Bench.Matrix.Sweep.{CellResult}
use goodputlab.Prelude.Float.{FloatOps}
use goodputlab.Prelude.Int.{pos}
use goodputlab.Prelude.Sort.{filter, filter-filter, length-filter}

module _ (fl : FloatOps) where
  open fl use {F, of_int, add, div}

  pub record SummaryStats : Type 0 where
    pub n_cells : ℕ
    pub n_cells_reconciled : ℕ
    pub n_unreconciled : ℕ
    pub n_thermal_warnings : ℕ
    pub all_reconciled : Bool
    pub mean_ttft_ms : F
    pub mean_itl_ms : F

  -- `THERMAL_WARN_C` is 80.
  unfoldable pub has_thermal_warning : CellResult fl → Bool
  has_thermal_warning r = ltb 80 r.measured.thermal.gpu_temp_c

  unfoldable pub reconciled : List (CellResult fl) → List (CellResult fl)
  unfolding filter
  reconciled = filter (λ r. r.reconcile_passes)

  -- `sum(xs)`, on top of `acc`.
  unfoldable pub sum_from : F → List (CellResult fl) → (CellResult fl → F) → F
  sum_from acc [] value = acc
  sum_from acc (r ∷ rs) value = sum_from (add acc (value r)) rs value

  -- The mean of the reconciled results, and 0.0 of none.
  unfoldable pub mean : List (CellResult fl) → (CellResult fl → F) → F
  unfolding sum_from
  mean [] value = of_int (pos 0)
  mean (r ∷ rs) value =
      div (sum_from (of_int (pos 0)) (r ∷ rs) value) (of_int (pos (length (r ∷ rs))))

  unfoldable pub from_results : List (CellResult fl) → SummaryStats
  unfolding has_thermal_warning reconciled mean
  from_results [] = record {
    n_cells = 0;
    n_cells_reconciled = 0;
    n_unreconciled = 0;
    n_thermal_warnings = 0;
    all_reconciled = true;
    mean_ttft_ms = of_int (pos 0);
    mean_itl_ms = of_int (pos 0);
  }
  from_results (r ∷ rs) =
      let results = r ∷ rs in
      let n_unreconciled = length results - length (reconciled results) in
      record {
        n_cells = length results;
        n_cells_reconciled = length (reconciled results);
        n_unreconciled = n_unreconciled;
        n_thermal_warnings = length (filter has_thermal_warning results);
        all_reconciled = n_unreconciled == 0;
        mean_ttft_ms = mean (reconciled results) (λ r. r.measured.mean_ttft_ms);
        mean_itl_ms = mean (reconciled results) (λ r. r.measured.mean_itl_ms);
      }

  length-reconciled :
      (rs : List (CellResult fl))
      → (length (reconciled rs) ≡ length rs) ↔ All (λ r. r.reconcile_passes ≡ true) rs
  unfolding reconciled filter
  length-reconciled [] = ((λ _. tt), (λ _. refl))
  length-reconciled (r ∷ rs) =
      let (to_all, of_all) = length-reconciled rs in
      let fewer = length-filter (λ r. r.reconcile_passes) rs in
      (
        (λ h.
            let here : r.reconcile_passes ≡ true = ground arith in
            let rest : length (reconciled rs) ≡ length rs = ground arith in (here, to_all rest)),
        (λ h. let rest = of_all h.1 in let here = h.0 in ground arith),
      )

  -- A summary counts every result once, as reconciled or not, has no more thermal warnings than
  -- results, and says that all are reconciled exactly when each of them is.
  pub from_results-reconciled :
      (rs : List (CellResult fl))
      → ((from_results rs).n_cells_reconciled + (from_results rs).n_unreconciled ≡ length rs)
        × ((from_results rs).n_thermal_warnings ≤ length rs)
        × (((from_results rs).all_reconciled ≡ true) ↔ All (λ r. r.reconcile_passes ≡ true) rs)
  unfolding from_results
  from_results-reconciled [] = (omega arith, omega arith, ((λ _. tt), (λ _. refl)))
  from_results-reconciled (r ∷ rs) =
      let fewer : length (reconciled (r ∷ rs)) ≤ length (r ∷ rs) =
        length-filter (λ r. r.reconcile_passes) (r ∷ rs) in
      let (to_all, of_all) = length-reconciled (r ∷ rs) in
      (
        omega arith,
        length-filter has_thermal_warning (r ∷ rs),
        ((λ h. to_all (ground arith)), (λ h. let same = of_all h in ground arith)),
      )

  from_results-mean :
      (rs : List (CellResult fl))
      → ((from_results rs).mean_ttft_ms ≡ mean (reconciled rs) (λ r. r.measured.mean_ttft_ms))
        × ((from_results rs).mean_itl_ms ≡ mean (reconciled rs) (λ r. r.measured.mean_itl_ms))
  unfolding from_results reconciled filter mean
  from_results-mean [] = (refl, refl)
  from_results-mean (r ∷ rs) = (refl, refl)

  -- The results that did not reconcile have no influence on the means: the summary of the
  -- reconciled results alone has the same.
  pub from_results-filter :
      (rs : List (CellResult fl))
      → ((from_results rs).mean_ttft_ms ≡ (from_results (reconciled rs)).mean_ttft_ms)
        × ((from_results rs).mean_itl_ms ≡ (from_results (reconciled rs)).mean_itl_ms)
  unfolding reconciled
  from_results-filter rs =
      let here = from_results-mean rs in
      let alone = from_results-mean (reconciled rs) in
      let same : reconciled (reconciled rs) ≡ reconciled rs =
        filter-filter (λ r. r.reconcile_passes) rs in
      (
        here.0 ∙ sym (alone.0 ∙ ap (λ x. mean x (λ r. r.measured.mean_ttft_ms)) same),
        here.1 ∙ sym (alone.1 ∙ ap (λ x. mean x (λ r. r.measured.mean_itl_ms)) same),
      )
