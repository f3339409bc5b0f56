-- ===== src/Bench/Matrix/Sweep/Finished.antt =====
-- That a completed cell is resumed from its file, and when a sweep leaves nothing to do.
use goodputlab.Prelude.{
  ◌≡◌, refl, ap, Bool, true, false, not, Option, none, some, List, [], ◌∷◌, arith, Bool-cases, inl,
  inr, All, All-map,
}
use goodputlab.Bench.Matrix.Aggregate.Complete.{IsOrderly, IsNamed, IsStored, sweep-IsStored}
use goodputlab.Bench.Matrix.Cells.{Topology, CellSpec, cell_id}
use goodputlab.Bench.Matrix.Sweep.{
  CellResult, Stored, corrupt, valid, Directory, Measurement, Sweep, sweep, start, is_sidecar,
  member, existing, pending_cell_specs, run_pending,
}
use goodputlab.Bench.Matrix.Sweep.Names.{member-existing, Found-existing}
use goodputlab.Bench.Matrix.Sweep.Resume.{has_result, missing, sweep-IsAccounted}
use goodputlab.Prelude.Dict
use goodputlab.Prelude.Dict.{Distinct}
use goodputlab.Prelude.Float.{FloatOps}
use goodputlab.Prelude.Result.{Result}
use goodputlab.Prelude.Sort.{filter, All-of_filter}
use goodputlab.Prelude.Text.{Text, text_discrete}

module _ (fl : FloatOps) {World : Type 0}
    (measure : CellSpec → World → World × Result (Measurement fl)) (k : Text)
    (r : CellResult fl) where
  -- The result stands under this name.
  abbrev Holds : Directory fl → Type 0
  Holds files = Dict.lookup text_discrete k files ≡ some (valid r)

module _ (fl : FloatOps) {World : Type 0}
    (measure : CellSpec → World → World × Result (Measurement fl)) (spec : CellSpec)
    (r : CellResult fl) where
  -- The result stands under the cell's name.
  abbrev IsDone : Directory fl → Type 0
  IsDone files = Dict.lookup text_discrete (cell_id spec) files ≡ some (valid r)

module _ (fl : FloatOps) where
  is_sidecar-cell_id : (c : CellSpec) → is_sidecar (cell_id c) ≡ false
  unfolding is_sidecar cell_id text_discrete
  is_sidecar-cell_id c =
      elim c.topology as (λ t. is_sidecar (cell_id (record c { topology = t })) ≡ false) [
        | Topology.colocated ↦ refl
        | Topology.chunked ↦ refl
        | Topology.disagg ↦ refl
        | Topology.disagg_tier ↦ refl
      ]

  -- No cell is missing.
  All-has_result :
      (files : Directory fl) (cs : List CellSpec)
      → missing fl files cs ≡ 0
      → All (λ c. has_result fl files c ≡ true) cs
  unfolding missing
  All-has_result files [] h = tt
  All-has_result files (c ∷ cs) h = elim (Bool-cases (has_result fl files c)) [
    | inl here ↦ (here, All-has_result files cs (ground (arith, h, here)))
    | inr gone ↦ absurd (ground (arith, h, gone))
  ]

  has_result_inv :
      (files : Directory fl) (c : CellSpec) (o : Option (Stored fl))
      → Dict.lookup text_discrete (cell_id c) files ≡ o
      → has_result fl files c ≡ true
      → (r : CellResult fl) × (Dict.lookup text_discrete (cell_id c) files ≡ some (valid r))
  unfolding has_result
  has_result_inv files c none e h = let broken = rw (e, has_result) at h in cc
  has_result_inv files c (some corrupt) e h = let broken = rw (e, has_result) at h in cc
  has_result_inv files c (some (valid r)) e h = (r, e)

  -- In an orderly directory, a cell whose file loads is not pending.
  has_result-member :
      (files : Directory fl) (c : CellSpec)
      → IsOrderly fl files
      → has_result fl files c ≡ true
      → member (cell_id c) (existing fl files) ≡ true
  has_result-member files c h has =
      let (r, e) = has_result_inv files c _ refl has in
      member-existing fl (cell_id c) r files (is_sidecar-cell_id c)
        (Dict.All-lookup text_discrete (IsNamed fl) (cell_id c) (valid r) files h.named e) e

  member-has_result :
      (files : Directory fl) (c : CellSpec)
      → IsOrderly fl files
      → member (cell_id c) (existing fl files) ≡ true
      → has_result fl files c ≡ true
  unfolding has_result
  member-has_result files c h m =
      let (r, e) = Found-existing fl (cell_id c) files h.distinct m in rw (e, has_result) refl

  filter_none :
      {A : Type 0} (test : A → Bool) (xs : List A)
      → All (λ x. test x ≡ true) xs
      → filter (λ x. not (test x)) xs ≡ []
  unfolding filter
  filter_none test [] h = refl
  filter_none test (x ∷ xs) h = rw (h.0, filter_none test xs h.1) refl

  module _ {World : Type 0} (measure : CellSpec → World → World × Result (Measurement fl)) where
    -- When a resumed sweep that does not stop early ends with no failure, from an orderly
    -- directory, no cell is pending any more: resuming it again has nothing to do.
    pub run_pending-pending_cell_specs :
        (all : List CellSpec) (w : World) (files : Directory fl)
        → IsOrderly fl files
        → (run_pending fl measure false all w files).n_failed ≡ 0
        → pending_cell_specs fl (run_pending fl measure false all w files).files all ≡ []
    unfolding run_pending pending_cell_specs start
    run_pending-pending_cell_specs all w files h no_failure =
        let before = start fl measure w files in
        let pending = filter (λ c. not (member (cell_id c) (existing fl files))) all in
        let after = sweep fl measure false pending before in
        let fresh : IsStored fl measure before = record {
          orderly = h;
          some_result = λ c. absurd (omega (arith, c));
        } in
        let orderly = (sweep-IsStored fl measure false pending before fresh).orderly in
        let counts = sweep-IsAccounted fl measure pending before in
        let ran =
          All-of_filter (λ c. has_result fl after.files c ≡ true)
            (λ c. not (member (cell_id c) (existing fl files))) all
            (All-has_result after.files pending (omega (arith, counts.left, no_failure))) in
        filter_none (λ c. member (cell_id c) (existing fl after.files)) all
          (All-map
            (λ c here.
              has_result-member after.files c orderly
                (elim (Bool-cases (member (cell_id c) (existing fl files))) [
                  | inl old ↦ counts.grows c (member-has_result files c h old)
                  | inr new ↦ here (ap not new)
                ]))
            all ran)
