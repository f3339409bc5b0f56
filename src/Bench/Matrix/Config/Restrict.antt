-- ===== src/Bench/Matrix/Config/Restrict.antt =====
-- A restricted configuration yields no cell of another topology.
use goodputlab.Prelude.{
  ℕ, ◌≡◌, Bool, true, not, if◌then◌else◌, List, [], ◌∷◌, arith, Bool-cases, inl, inr, All, All-map,
  All-append, All-tt, All-both, is_yes,
}
use goodputlab.Bench.Matrix.Aggregate.{is_empty}
use goodputlab.Bench.Matrix.Cells.{
  Topology, Model, Mix, CellSpec, topology_value, make_cell, for_each, one, cells, MatrixSpec,
}
use goodputlab.Bench.Matrix.Config.{
  all_topologies, topology_of, topologies_of, is_allowed, MatrixSweepConfig, restrict_topologies,
  to_matrix_spec,
}
use goodputlab.Bench.Matrix.Sweep.{member}
use goodputlab.Bench.Matrix.Sweep.Names.{member_self, member-rest}
use goodputlab.Prelude.Float.{FloatOps}
use goodputlab.Prelude.Result.{Result, ok, raise, value_error, Ensures, Ensures-then, of_Ensures}
use goodputlab.Prelude.Sort.{filter}
use goodputlab.Prelude.Text.{Text, text_discrete}
use mathlib.Core.Option

abbrev Spells : Text → Topology → Type 0
Spells name t = name ≡ topology_value t

Spells-if :
    (name : Text) (t : Topology) (rest : Result Topology)
    → Ensures (Spells name) rest
    → Ensures (Spells name) (if is_yes (text_discrete name (topology_value t)) then ok t else rest)
Spells-if name t rest h =
    elim (text_discrete name (topology_value t))
      as (λ d. Ensures (Spells name) (if is_yes d then ok t else rest)) [ yes e ↦ e | no _ ↦ h ]

topology_of-Spells : (name : Text) → Ensures (Spells name) (topology_of name)
unfolding topology_of
topology_of-Spells name = Spells-if name Topology.colocated _ (
    Spells-if name Topology.chunked _ (
      Spells-if name Topology.disagg _
        (Spells-if name Topology.disagg_tier (raise value_error) tt)))

abbrev IsNamed : List Text → Topology → Type 0
IsNamed names t = member (topology_value t) names ≡ true

topologies_of-IsNamed : (names : List Text) → Ensures (All (IsNamed names)) (topologies_of names)
unfolding topologies_of
topologies_of-IsNamed [] = tt
topologies_of-IsNamed (name ∷ names) =
    Ensures-then (All (IsNamed (name ∷ names))) (topology_of name) _ (λ t e.
      Ensures-then (All (IsNamed (name ∷ names))) (topologies_of names) _ (λ ts f.
        let same = of_Ensures (Spells name) (topology_of name) (topology_of-Spells name) e in
        let rest =
          of_Ensures (All (IsNamed names)) (topologies_of names) (topologies_of-IsNamed names) f in
        (
          member_self (topology_value t) name names same,
          All-map (λ u h. member-rest (topology_value u) name names h) ts rest,
        )))

-- Nothing is left by a test that everything fails.
All-of_empty_filter :
    {A : Type 0} (test : A → Bool) (xs : List A)
    → is_empty (filter (λ x. not (test x)) xs) ≡ true
    → All (λ x. test x ≡ true) xs
unfolding filter
All-of_empty_filter test [] h = tt
All-of_empty_filter test (x ∷ xs) h = elim (Bool-cases (test x)) [
  | inl e ↦ (e, All-of_empty_filter test xs (rw e at h))
  | inr e ↦ let broken = rw e at h in cc
]

for_each-All :
    {A : Type 0} (Q : A → Type 0) (P : CellSpec → Type 0) (body : A → Result (List CellSpec))
    (xs : List A)
    → All Q xs
    → ((x : A) → Q x → Ensures (All P) (body x))
    → Ensures (All P) (for_each xs body)
unfolding for_each
for_each-All Q P body [] h each = tt
for_each-All Q P body (x ∷ xs) h each = Ensures-then (All P) (body x) _ (λ here e.
    Ensures-then (All P) (for_each xs body) _ (λ rest f.
      All-append P here rest (of_Ensures (All P) (body x) (each x h.0) e)
        (of_Ensures (All P) (for_each xs body) (for_each-All Q P body xs h.1 each) f)))

make_cell-topology :
    (t : Topology) (model : Model) (rate : ℕ) (mix : Mix) (n_warmup n_measure : ℕ) {c : CellSpec}
    → make_cell t model rate mix n_warmup n_measure 0 ≡ ok c
    → c.topology ≡ t
unfolding make_cell
make_cell-topology t model rate mix n_warmup n_measure e = ground arith

-- The cells of a matrix take its topologies.
cells-topology :
    (P : Topology → Type 0) (m : MatrixSpec)
    → All P m.topologies
    → Ensures (All (λ c. P c.topology)) (cells m)
unfolding cells make_cell
cells-topology P m h =
    let Each = All (λ c. P c.topology) in
    for_each-All P (λ c. P c.topology) _ m.topologies h
      (λ t p.
        for_each-All (λ _. Unit {0}) (λ c. P c.topology) _ m.models (All-tt m.models)
          (λ model _.
            for_each-All (λ _. Unit {0}) (λ c. P c.topology) _ m.rates_rps (All-tt m.rates_rps)
              (λ rate _.
                for_each-All (λ _. Unit {0}) (λ c. P c.topology) _ m.mixes (All-tt m.mixes)
                  (λ mix _.
                    Ensures-then Each (make_cell t model rate mix m.n_warmup m.n_measure 0) one
                      (λ c made. (
                        rw (make_cell-topology t model rate mix m.n_warmup m.n_measure made) p,
                        tt,
                      ))))))

module _ (fl : FloatOps) where
  abbrev Stays : MatrixSweepConfig fl → List Text → Topology → Type 0
  Stays c names t =
      IsNamed names t × (is_allowed (Option.get_or c.topologies all_topologies) t ≡ true)

  restrict_topologies-Stays :
      (c : MatrixSweepConfig fl) (names : List Text)
      → Ensures
          (λ c'. All (Stays c names) (to_matrix_spec fl c').topologies)
          (restrict_topologies fl c names)
  unfolding restrict_topologies to_matrix_spec
  restrict_topologies-Stays c names =
      let allowed = Option.get_or c.topologies all_topologies in
      Ensures-then (λ c'. All (Stays c names) (to_matrix_spec fl c').topologies)
        (topologies_of names) _
        (λ wanted e.
          let named =
            of_Ensures (All (IsNamed names)) (topologies_of names) (topologies_of-IsNamed names)
              e in
          elim (Bool-cases (is_empty (filter (λ t. not (is_allowed allowed t)) wanted))) [
            | inl none_left ↦ rw none_left (
                All-both (IsNamed names) (λ t. is_allowed allowed t ≡ true) (Stays c names)
                  (λ t p q. (p, q)) wanted named
                  (All-of_empty_filter (is_allowed allowed) wanted none_left))
            | inr left ↦ rw left tt
          ])

  -- Every cell of a configuration that is restricted to some topologies has one of the names
  -- given, and one of the topologies that the configuration had.
  pub restrict_topologies-cells :
      (c : MatrixSweepConfig fl) (names : List Text) {c' : MatrixSweepConfig fl}
      {cs : List CellSpec}
      → restrict_topologies fl c names ≡ ok c'
      → cells (to_matrix_spec fl c') ≡ ok cs
      → All
          (λ cell.
            (member (topology_value cell.topology) names ≡ true)
            × (is_allowed (Option.get_or c.topologies all_topologies) cell.topology ≡ true))
          cs
  restrict_topologies-cells c names {c' = c'} e made =
      of_Ensures (All (λ cell. Stays c names cell.topology)) (cells (to_matrix_spec fl c'))
        (cells-topology (Stays c names) (to_matrix_spec fl c') (
          of_Ensures (λ d. All (Stays c names) (to_matrix_spec fl d).topologies)
            (restrict_topologies fl c names) (restrict_topologies-Stays c names) e))
        made
