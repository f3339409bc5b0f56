-- ===== src/Bench/Matrix/Aggregate/Totals.antt =====
-- The topologies' counts add up to those of the whole campaign.
use goodputlab.Prelude.{
  ℕ, ◌-◌, ◌≤◌, ◌+◌, ◌≡◌, refl, sym, ◌∙◌, ap, Bool, List, [], ◌∷◌, ◌++◌, map, arith, length,
  length-append,
}
use goodputlab.Bench.Matrix.Aggregate.{
  Groups, add_result, per_topology_breakdown, topology_stats, TopologyStats, CampaignReport,
  CampaignSummary, summarize, value_leb, topology_discrete,
}
use goodputlab.Bench.Matrix.Cells.{Topology}
use goodputlab.Bench.Matrix.Summary.{from_results, has_thermal_warning, reconciled}
use goodputlab.Bench.Matrix.Sweep.{CellResult}
use goodputlab.Prelude.Dict
use goodputlab.Prelude.Float.{FloatOps}
use goodputlab.Prelude.Sort.{filter, sort, insert, length-filter, length-filter-append}
use mathlib.Core.Option
use mathlib.Core.Path.{fun_ext}

abbrev pub total_of : {A : Type 0} → (A → ℕ) → List A → ℕ
total_of value [] = 0
total_of value (x ∷ xs) = value x + total_of value xs

total_of-insert :
    {A : Type 0} (le : A → A → Bool) (value : A → ℕ) (x : A) (ys : List A)
    → total_of value (insert le x ys) ≡ value x + total_of value ys
unfolding insert
total_of-insert le value x [] = refl
total_of-insert le value x (y ∷ ys) = ground (arith, total_of-insert le value x ys)

total_of-sort :
    {A : Type 0} (le : A → A → Bool) (value : A → ℕ) (xs : List A)
    → total_of value (sort le xs) ≡ total_of value xs
unfolding sort
total_of-sort le value [] = refl
total_of-sort le value (x ∷ xs) =
    omega (arith, total_of-insert le value x (sort le xs), total_of-sort le value xs)

total_of-map :
    {A B : Type 0} (value : B → ℕ) (f : A → B) (xs : List A)
    → total_of value (map f xs) ≡ total_of (λ x. value (f x)) xs
total_of-map value f [] = refl
total_of-map value f (x ∷ xs) = omega (arith, total_of-map value f xs)

module _ (fl : FloatOps) (count : List (CellResult fl) → ℕ) (count-nil : count [] ≡ 0)
    (count-append : (a b : List (CellResult fl)) → count (a ++ b) ≡ count a + count b) where
  total_of-set :
      (t : Topology) (r : CellResult fl) (groups : Groups fl)
      → total_of
          (λ e. count e.1)
          (Dict.set topology_discrete t
            (Option.get_or (Dict.lookup topology_discrete t groups) [] ++ r ∷ [])
            groups)
        ≡ total_of (λ e. count e.1) groups + count (r ∷ [])
  unfolding Dict.set Dict.lookup
  total_of-set t r [] = omega arith
  total_of-set t r ((u, group) ∷ groups) =
      ground (arith, total_of-set t r groups, count-append group (r ∷ []))

  total_of-per_topology_breakdown :
      (rs : List (CellResult fl)) (groups : Groups fl)
      → total_of (λ e. count e.1) (per_topology_breakdown fl rs groups)
        ≡ total_of (λ e. count e.1) groups + count rs
  unfolding per_topology_breakdown add_result
  total_of-per_topology_breakdown [] groups = omega (arith, count-nil)
  total_of-per_topology_breakdown (r ∷ rs) groups = omega (
    arith,
    total_of-per_topology_breakdown rs (add_result fl r groups),
    total_of-set r.spec.topology r groups,
    count-append (r ∷ []) rs,
  )

  -- A count that each topology's statistics show is the whole count.
  total_of-topology_stats :
      (value : TopologyStats fl → ℕ) (cost : fl.F) (rs : List (CellResult fl))
      → ((e : Topology × List (CellResult fl)) → value (topology_stats fl cost e) ≡ count e.1)
      → total_of value
          (map (topology_stats fl cost) (sort (value_leb fl) (per_topology_breakdown fl rs [])))
        ≡ count rs
  total_of-topology_stats value cost rs shows =
      let groups = per_topology_breakdown fl rs [] in
      total_of-map value (topology_stats fl cost) (sort (value_leb fl) groups)
      ∙ ap (λ f. total_of f (sort (value_leb fl) groups)) (fun_ext shows)
      ∙ total_of-sort (value_leb fl) (λ e. count e.1) groups
      ∙ total_of-per_topology_breakdown rs []
      ∙ omega arith

module _ (fl : FloatOps) where
  -- The topologies share the cells of a campaign out among them, with the counts of its summary.
  pub record IsShared (s : CampaignSummary fl) : Type 0 where
    pub n_cells : total_of (λ t. t.n_cells) s.per_topology ≡ s.summary.n_cells
    pub all : s.n_cells ≡ s.summary.n_cells
    pub n_reconciled : total_of (λ t. t.n_reconciled) s.per_topology ≡ s.summary.n_cells_reconciled
    pub n_unreconciled : total_of (λ t. t.n_unreconciled) s.per_topology ≡ s.summary.n_unreconciled
    pub n_thermal_warnings :
        total_of (λ t. t.n_thermal_warnings) s.per_topology ≡ s.summary.n_thermal_warnings

  from_results-counts :
      (rs : List (CellResult fl))
      → ((from_results fl rs).n_cells ≡ length rs)
        × ((from_results fl rs).n_cells_reconciled ≡ length (reconciled fl rs))
        × ((from_results fl rs).n_unreconciled ≡ length rs - length (reconciled fl rs))
        × ((from_results fl rs).n_thermal_warnings ≡ length (filter (has_thermal_warning fl) rs))
  unfolding from_results reconciled filter
  from_results-counts [] = (refl, refl, refl, refl)
  from_results-counts (r ∷ rs) = (refl, refl, refl, refl)

  length-reconciled-append :
      (a b : List (CellResult fl))
      → length (reconciled fl (a ++ b)) ≡ length (reconciled fl a) + length (reconciled fl b)
  unfolding reconciled
  length-reconciled-append = length-filter-append (λ r. r.reconcile_passes)

  length-reconciled : (a : List (CellResult fl)) → length (reconciled fl a) ≤ length a
  unfolding reconciled
  length-reconciled = length-filter (λ r. r.reconcile_passes)

  -- In the summary of any results, the topologies' counts of cells, of reconciled cells, of
  -- unreconciled cells and of thermal warnings each add up to the count of the whole campaign.
  pub summarize-IsShared :
      (campaign : CampaignReport fl) (cost : fl.F) (rs : List (CellResult fl))
      → IsShared (summarize fl campaign cost rs)
  unfolding summarize from_results topology_stats
  summarize-IsShared campaign cost rs =
      let told = from_results-counts rs in
      record {
        n_cells =
            total_of-topology_stats fl length refl length-append (λ t. t.n_cells) cost rs
              (λ e. refl)
            ∙ sym told.0;
        all = sym told.0;
        n_reconciled =
            total_of-topology_stats fl (λ g. length (reconciled fl g)) refl length-reconciled-append
              (λ t. t.n_reconciled) cost rs (λ e. refl)
            ∙ sym told.1;
        n_unreconciled =
            total_of-topology_stats fl (λ g. length g - length (reconciled fl g)) refl
              (λ a b. omega (
                arith,
                length-append a b,
                length-reconciled-append a b,
                length-reconciled a,
                length-reconciled b,
              ))
              (λ t. t.n_unreconciled) cost rs (λ e. refl)
            ∙ sym told.2;
        n_thermal_warnings =
            total_of-topology_stats fl (λ g. length (filter (has_thermal_warning fl) g)) refl
              (length-filter-append (has_thermal_warning fl)) (λ t. t.n_thermal_warnings) cost rs
              (λ e. refl)
            ∙ sym told.3;
      }
