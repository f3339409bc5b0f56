-- ===== src/Bench/Matrix/Aggregate/Complete.antt =====
-- What `aggregate` makes of the directory that a sweep leaves.
use goodputlab.Prelude.{
  ℕ, suc, ◌<◌, ◌≡◌, refl, sym, ◌∙◌, ap, Bool, true, false, Option, none, some, List, [], ◌∷◌, arith,
  if◌then◌else◌, length, All,
}
use goodputlab.Bench.Matrix.Aggregate.{path_leb, id_leb, is_empty, load_all, aggregate}
use goodputlab.Bench.Matrix.Cells.{CellSpec, cell_id}
use goodputlab.Bench.Matrix.Sweep.{
  CellResult, Stored, corrupt, valid, Directory, Measurement, result_of, write, store_result,
  execute, load_or_execute, run_cell, Sweep, fail, complete, count, sweep,
}
use goodputlab.Prelude.Dict
use goodputlab.Prelude.Dict.{Distinct}
use goodputlab.Prelude.Float.{FloatOps}
use goodputlab.Prelude.Result.{Result, ok, raise}
use goodputlab.Prelude.Sort.{sort, insert, All-sort, length-sort}
use goodputlab.Prelude.Text.{Text, text_discrete, text_eq}

module _ (fl : FloatOps) where
  -- A file that holds a result is named after it.
  abbrev pub IsNamed : Text × Stored fl → Type 0
  IsNamed (stem, corrupt) = Unit
  IsNamed (stem, valid r) = r.id ≡ stem

  -- A directory has each name once, and its results under their own names.
  pub record IsOrderly (files : Directory fl) : Type 0 where
    pub named : All IsNamed files
    pub distinct : Distinct files

  abbrev results_of : Directory fl → List (CellResult fl)
  results_of [] = []
  results_of ((stem, corrupt) ∷ files) = results_of files
  results_of ((stem, valid r) ∷ files) = r ∷ results_of files

  -- The files that hold a result.
  abbrev pub n_results : Directory fl → ℕ
  n_results [] = 0
  n_results ((stem, corrupt) ∷ files) = n_results files
  n_results ((stem, valid r) ∷ files) = suc (n_results files)

  length-results_of : (files : Directory fl) → length (results_of files) ≡ n_results files
  length-results_of [] = refl
  length-results_of ((stem, corrupt) ∷ files) = length-results_of files
  length-results_of ((stem, valid r) ∷ files) = ap suc (length-results_of files)

  load_all-results_of :
      (files : Directory fl) → All IsNamed files → load_all fl files ≡ ok (results_of files)
  unfolding load_all
  load_all-results_of [] h = refl
  load_all-results_of ((stem, corrupt) ∷ files) h = load_all-results_of files h.1
  load_all-results_of ((stem, valid r) ∷ files) h =
      rw (text_eq r.id stem h.0, load_all-results_of files h.1) refl

  n_results-insert :
      (le : Text × Stored fl → Text × Stored fl → Bool) (e : Text × Stored fl)
      (files : Directory fl)
      → n_results (insert le e files) ≡ n_results (e ∷ files)
  unfolding insert
  n_results-insert le e [] = refl
  n_results-insert le (a, corrupt) ((b, corrupt) ∷ files) =
      ground (arith, n_results-insert le (a, corrupt) files)
  n_results-insert le (a, corrupt) ((b, valid r) ∷ files) =
      ground (arith, n_results-insert le (a, corrupt) files)
  n_results-insert le (a, valid q) ((b, corrupt) ∷ files) =
      ground (arith, n_results-insert le (a, valid q) files)
  n_results-insert le (a, valid q) ((b, valid r) ∷ files) =
      ground (arith, n_results-insert le (a, valid q) files)

  n_results-cons :
      (e : Text × Stored fl) (a b : Directory fl)
      → n_results a ≡ n_results b
      → n_results (e ∷ a) ≡ n_results (e ∷ b)
  n_results-cons (stem, corrupt) a b h = h
  n_results-cons (stem, valid r) a b h = ap suc h

  n_results-sort :
      (le : Text × Stored fl → Text × Stored fl → Bool) (files : Directory fl)
      → n_results (sort le files) ≡ n_results files
  unfolding sort
  n_results-sort le [] = refl
  n_results-sort le (e ∷ files) =
      n_results-insert le e (sort le files) ∙ n_results-cons e _ _ (n_results-sort le files)

  is_empty-false : {A : Type 0} (xs : List A) → 0 < length xs → is_empty xs ≡ false
  is_empty-false [] h = absurd (omega (arith, h))
  is_empty-false (x ∷ xs) h = refl

  is_empty-results : (files : Directory fl) → 0 < n_results files → is_empty files ≡ false
  is_empty-results [] h = absurd (omega (arith, h))
  is_empty-results (e ∷ files) h = refl

  -- The table of a directory: as many rows as it has results, each of them one of its files.
  pub record IsTable (files : Directory fl) (rs : List (CellResult fl)) : Type 0 where
    pub whole : length rs ≡ n_results files
    pub held : All (λ r. Dict.lookup text_discrete r.id files ≡ some (valid r)) rs

  module _ (files : Directory fl) where
    abbrev IsHeld : CellResult fl → Type 0
    IsHeld r = Dict.lookup text_discrete r.id files ≡ some (valid r)

    results_of-IsHeld :
        (part : Directory fl)
        → All IsNamed part
        → All (λ e. Dict.lookup text_discrete e.0 files ≡ some e.1) part
        → All IsHeld (results_of part)
    results_of-IsHeld [] named held = tt
    results_of-IsHeld ((stem, corrupt) ∷ part) named held = results_of-IsHeld part named.1 held.1
    results_of-IsHeld ((stem, valid r) ∷ part) named held = (
      ap (λ k. Dict.lookup text_discrete k files) named.0 ∙ held.0,
      results_of-IsHeld part named.1 held.1,
    )

    pub aggregate-IsTable :
        IsOrderly files
        → 0 < n_results files
        → (rs : List (CellResult fl)) × (aggregate fl files ≡ ok rs) × IsTable files rs
    unfolding aggregate
    aggregate-IsTable orderly some_result =
        let sorted = sort (path_leb fl) files in
        let named = All-sort (path_leb fl) IsNamed files orderly.named in
        let held =
          All-sort (path_leb fl) (λ e. Dict.lookup text_discrete e.0 files ≡ some e.1) files
            (Dict.Distinct-lookup text_discrete files orderly.distinct) in
        let rows = results_of sorted in
        let many : length rows ≡ n_results files =
          length-results_of sorted ∙ n_results-sort (path_leb fl) files in
        (
          sort (id_leb fl) rows,
          rw
              (
                is_empty-results files some_result,
                load_all-results_of sorted named,
                is_empty-false rows (rw many some_result),
              )
              refl,
          record {
            whole = length-sort (id_leb fl) rows ∙ many;
            held = All-sort (id_leb fl) IsHeld rows (results_of-IsHeld sorted named held);
          },
        )

  pub write-IsOrderly :
      (r : CellResult fl) (files : Directory fl) → IsOrderly files → IsOrderly (write fl r files)
  unfolding write
  write-IsOrderly r files h = record {
    named = Dict.All-set text_discrete IsNamed r.id (valid r) files refl (λ j w e. sym e) h.named;
    distinct = Dict.set-Distinct text_discrete r.id (valid r) files h.distinct;
  }

  n_results-set :
      (k : Text) (r : CellResult fl) (files : Directory fl)
      → 0 < n_results (Dict.set text_discrete k (valid r) files)
  unfolding Dict.set
  n_results-set k r [] = omega arith
  n_results-set k r ((j, corrupt) ∷ files) = ground (arith, n_results-set k r files)
  n_results-set k r ((j, valid q) ∷ files) = ground arith

  n_results-lookup :
      (k : Text) (r : CellResult fl) (files : Directory fl)
      → Dict.lookup text_discrete k files ≡ some (valid r)
      → 0 < n_results files
  unfolding Dict.lookup
  n_results-lookup k r [] e = cc
  n_results-lookup k r ((j, corrupt) ∷ files) e = ground (arith, n_results-lookup k r files)
  n_results-lookup k r ((j, valid q) ∷ files) e = omega arith

  module _ {World : Type 0} (measure : CellSpec → World → World × Result (Measurement fl)) where
    abbrev Outcome : Type 0
    Outcome = World × Directory fl × Result (CellResult fl)

    -- A run leaves an orderly directory, with a result if it returns one or there was one.
    pub record Keeps (files : Directory fl) (x : Outcome) : Type 0 where
      pub orderly : IsOrderly x.1
      pub added : (r : CellResult fl) → x.2 ≡ ok r → 0 < n_results x.1
      pub kept : 0 < n_results files → 0 < n_results x.1

    store_result-Keeps :
        (spec : CellSpec) (files : Directory fl) (x : World × Result (Measurement fl))
        → IsOrderly files
        → Keeps files (store_result fl measure spec files x)
    unfolding store_result write
    store_result-Keeps spec files (w, raise e) h = record {
      orderly = h;
      added = λ r k. cc;
      kept = λ k. k;
    }
    store_result-Keeps spec files (w, ok m) h =
        let r = result_of fl spec m in
        let some_result = n_results-set r.id r files in
        record {
          orderly = write-IsOrderly r files h;
          added = λ q k. some_result;
          kept = λ k. some_result;
        }

    load_or_execute-Keeps :
        (spec : CellSpec) (w : World) (files : Directory fl) (o : Option (Stored fl))
        → Dict.lookup text_discrete (cell_id spec) files ≡ o
        → IsOrderly files
        → Keeps files (load_or_execute fl measure spec w files o)
    unfolding load_or_execute execute
    load_or_execute-Keeps spec w files (some (valid r)) e h =
        let some_result = n_results-lookup (cell_id spec) r files e in
        record { orderly = h; added = λ q k. some_result; kept = λ k. k }
    load_or_execute-Keeps spec w files (some corrupt) e h =
        store_result-Keeps spec files (measure spec w) h
    load_or_execute-Keeps spec w files none e h = store_result-Keeps spec files (measure spec w) h

    run_cell-Keeps :
        (spec : CellSpec) (w : World) (files : Directory fl)
        → IsOrderly files
        → Keeps files (run_cell fl measure spec w files)
    unfolding run_cell
    run_cell-Keeps spec w files h = load_or_execute-Keeps spec w files _ refl h

    -- The invariant of a sweep.
    pub record IsStored (s : Sweep fl measure) : Type 0 where
      pub orderly : IsOrderly s.files
      pub some_result : 0 < s.n_completed → 0 < n_results s.files

    count-IsStored :
        (stop : Bool) (s : Sweep fl measure) (x : Outcome)
        → Keeps s.files x
        → IsStored s
        → IsStored (count fl measure stop s x).0
    unfolding count fail complete
    count-IsStored stop s (w, files, raise e) k h = record {
      orderly = k.orderly;
      some_result = λ c. k.kept (h.some_result c);
    }
    count-IsStored stop s (w, files, ok r) k h = record {
      orderly = k.orderly;
      some_result = λ c. k.added r refl;
    }

    pub sweep-IsStored :
        (stop : Bool) (specs : List CellSpec) (s : Sweep fl measure)
        → IsStored s
        → IsStored (sweep fl measure stop specs s)
    unfolding sweep
    sweep-IsStored stop [] s h = h
    sweep-IsStored stop (spec ∷ specs) s h =
        let x = run_cell fl measure spec s.world s.files in
        let now = count-IsStored stop s x (run_cell-Keeps spec s.world s.files h.orderly) h in
        let here = (count fl measure stop s x).0 in
        elim (count fl measure stop s x).1
          as (λ broken. IsStored (if broken then here else sweep fl measure stop specs here)) [
            | true ↦ now
            | false ↦ sweep-IsStored stop specs here now
          ]
