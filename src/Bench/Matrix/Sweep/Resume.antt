-- ===== src/Bench/Matrix/Sweep/Resume.antt =====
-- A sweep that runs to its end: what it counts, and what it leaves without a result.
use goodputlab.Prelude.{
  ℕ, suc, ◌+◌, ◌≤◌, ◌≡◌, refl, sym, subst, Bool, true, false, Option, none, some, List, [], ◌∷◌,
  arith, length, inl, inr, if◌then◌else◌, ◌⊎◌,
}
use goodputlab.Bench.Matrix.Cells.{CellSpec, cell_id}
use goodputlab.Bench.Matrix.Sweep.{
  CellResult, Stored, corrupt, valid, Directory, result_of, write, store_result, execute,
  load_or_execute, run_cell, Sweep, fail, complete, count, sweep, Measurement,
}
use goodputlab.Prelude.Dict
use goodputlab.Prelude.Float.{FloatOps}
use goodputlab.Prelude.Result.{Result, ok, raise}
use goodputlab.Prelude.Text.{text_discrete}

module _ (fl : FloatOps) where
  -- A file loads for the cell.
  unfoldable pub has_result : Directory fl → CellSpec → Bool
  has_result files c = elim (Dict.lookup text_discrete (cell_id c) files) [
    | none ↦ false
    | some corrupt ↦ false
    | some (valid _) ↦ true
  ]

  -- The cells of a list that have no result.
  unfoldable pub missing : Directory fl → List CellSpec → ℕ
  unfolding has_result
  missing files [] = 0
  missing files (c ∷ cs) = (if has_result files c then 0 else 1) + missing files cs

  has_result-write :
      (r : CellResult fl) (files : Directory fl) (c : CellSpec)
      → has_result files c ≡ true
      → has_result (write fl r files) c ≡ true
  unfolding has_result write
  has_result-write r files c h =
      ground (arith, Dict.lookup-set text_discrete r.id (cell_id c) (valid r) files)

  has_result-result_of :
      (c : CellSpec) (m : Measurement fl) (files : Directory fl)
      → has_result (write fl (result_of fl c m) files) c ≡ true
  unfolding has_result write result_of
  has_result-result_of c m files = ground (
    arith,
    Dict.lookup-set text_discrete (cell_id c) (cell_id c) (valid (result_of fl c m)) files,
  )

  missing-write :
      (r : CellResult fl) (files : Directory fl) (cs : List CellSpec)
      → missing (write fl r files) cs ≤ missing files cs
  unfolding missing
  missing-write r files [] = omega arith
  missing-write r files (c ∷ cs) =
      ground (arith, missing-write r files cs, has_result-write r files c)

  module _ {World : Type 0} (measure : CellSpec → World → World × Result (Measurement fl)) where
    abbrev Outcome : Type 0
    Outcome = World × Directory fl × Result (CellResult fl)

    -- Results are only added, and a cell that returns has one.
    abbrev Adds : Directory fl → CellSpec → Outcome → Type 0
    Adds files spec x =
        ((c : CellSpec) → has_result files c ≡ true → has_result x.1 c ≡ true)
        × ((r : CellResult fl) → x.2 ≡ ok r → has_result x.1 spec ≡ true)

    store_result-Adds :
        (spec : CellSpec) (files : Directory fl) (x : World × Result (Measurement fl))
        → Adds files spec (store_result fl measure spec files x)
    unfolding store_result
    store_result-Adds spec files (w, raise e) = ((λ c h. h), (λ r h. cc))
    store_result-Adds spec files (w, ok m) = (
      (λ c h. has_result-write (result_of fl spec m) files c h),
      (λ r h. has_result-result_of spec m files),
    )

    load_or_execute-Adds :
        (spec : CellSpec) (w : World) (files : Directory fl) (o : Option (Stored fl))
        → Dict.lookup text_discrete (cell_id spec) files ≡ o
        → Adds files spec (load_or_execute fl measure spec w files o)
    unfolding load_or_execute execute has_result
    load_or_execute-Adds spec w files (some (valid r)) e =
        ((λ c h. h), (λ q h. rw (e, has_result) refl))
    load_or_execute-Adds spec w files (some corrupt) e =
        store_result-Adds spec files (measure spec w)
    load_or_execute-Adds spec w files none e = store_result-Adds spec files (measure spec w)

    run_cell-Adds :
        (spec : CellSpec) (w : World) (files : Directory fl)
        → Adds files spec (run_cell fl measure spec w files)
    unfolding run_cell
    run_cell-Adds spec w files = load_or_execute-Adds spec w files _ refl

    -- What one turn of an unstopped sweep does to its state.
    abbrev Turns : Sweep fl measure → CellSpec → Sweep fl measure → Type 0
    Turns s spec s' =
        ((c : CellSpec) → has_result s.files c ≡ true → has_result s'.files c ≡ true)
        × (((has_result s'.files spec ≡ true)
              × (s'.n_failed ≡ s.n_failed)
              × (s'.n_completed ≡ suc s.n_completed))
            ⊎ ((s'.n_failed ≡ suc s.n_failed) × (s'.n_completed ≡ s.n_completed)))

    count-Turns :
        (s : Sweep fl measure) (spec : CellSpec) (x : Outcome)
        → Adds s.files spec x
        → ((count fl measure false s x).1 ≡ false) × Turns s spec (count fl measure false s x).0
    unfolding count fail complete
    count-Turns s spec (w, files, raise e) a = (refl, (a.0, inr (refl, refl)))
    count-Turns s spec (w, files, ok r) a = (refl, (a.0, inl (a.1 r refl, refl, refl)))

    abbrev turn : CellSpec → Sweep fl measure → Sweep fl measure
    turn spec s = (count fl measure false s (run_cell fl measure spec s.world s.files)).0

    turn-Turns : (spec : CellSpec) (s : Sweep fl measure) → Turns s spec (turn spec s)
    turn-Turns spec s = (count-Turns s spec _ (run_cell-Adds spec s.world s.files)).1

    sweep-turn :
        (spec : CellSpec) (specs : List CellSpec) (s : Sweep fl measure)
        → sweep fl measure false (spec ∷ specs) s ≡ sweep fl measure false specs (turn spec s)
    unfolding sweep
    sweep-turn spec specs s =
        rw
          (count-Turns s spec (run_cell fl measure spec s.world s.files)
            (run_cell-Adds spec s.world s.files)).0
          refl

    -- Every cell was counted once, the cells without a result are no more than those that
    -- failed, and every result is still there.
    pub record IsAccounted (specs : List CellSpec) (s s' : Sweep fl measure) : Type 0 where
      pub counted : s'.n_completed + s'.n_failed ≡ s.n_completed + s.n_failed + length specs
      pub left : missing s'.files specs + s.n_failed ≤ s'.n_failed
      pub grows : (c : CellSpec) → has_result s.files c ≡ true → has_result s'.files c ≡ true

    IsAccounted-step :
        (spec : CellSpec) (specs : List CellSpec) (s t u : Sweep fl measure)
        → Turns s spec t
        → IsAccounted specs t u
        → IsAccounted (spec ∷ specs) s u
    unfolding missing
    IsAccounted-step spec specs s t u now v = record {
      counted = ground arith;
      left = ground (arith, v.grows spec);
      grows = λ c h. v.grows c (now.0 c h);
    }

    -- A sweep that does not stop early counts each of its cells once, as completed or as failed.
    -- After it, the cells of the list that have no file that loads are no more than the cells
    -- that failed in it, and every cell that had such a file still has one.
    pub sweep-IsAccounted :
        (specs : List CellSpec) (s : Sweep fl measure)
        → IsAccounted specs s (sweep fl measure false specs s)
    unfolding sweep missing
    sweep-IsAccounted [] s = record { counted = omega arith; left = omega arith; grows = λ c h. h }
    sweep-IsAccounted (spec ∷ specs) s =
        subst (IsAccounted (spec ∷ specs) s) (sym (sweep-turn spec specs s)) (
          IsAccounted-step spec specs s (turn spec s) (sweep fl measure false specs (turn spec s))
            (turn-Turns spec s) (sweep-IsAccounted specs (turn spec s)))
