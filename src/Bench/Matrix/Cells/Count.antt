-- ===== src/Bench/Matrix/Cells/Count.antt =====
-- How many cells a matrix has, and the range of their seeds.
use goodputlab.Prelude.{
  ℕ, suc, ◌+◌, ◌*◌, ◌%◌, ◌^◌, ◌<◌, ◌≤◌, ◌≡◌, refl, List, [], ◌∷◌, ◌++◌, arith, length,
  length-append, All, All-append,
}
use goodputlab.Bench.Matrix.Cells.{
  topology_value, model_value, mix_value, Topology, Model, Mix, CellSpec, hash_from, derive_seed,
  make_cell, MatrixSpec, for_each, one, cells, total_cells,
}
use goodputlab.Prelude.Result.{Result, ok, Ensures, Ensures-then, of_Ensures}
use goodputlab.Prelude.Text.{Text, decimal}

hash_from-lt : (s : Text) (h : ℕ) → h < 2 ^ 32 → hash_from h s < 2 ^ 32
unfolding hash_from
hash_from-lt [] h up = up
hash_from-lt (c ∷ s) h up = hash_from-lt s ((h * 131 + c) % 2 ^ 32) (omega arith)

derive_seed-lt :
    (t : Topology) (m : Model) (rate : ℕ) (mix : Mix) → derive_seed t m rate mix < 2 ^ 32
unfolding derive_seed
derive_seed-lt t m rate mix =
    hash_from-lt
      (topology_value t ++ b'|' ∷ model_value m ++ b'|' ∷ decimal rate ++ b'|' ∷ mix_value mix) 0
      (omega arith)

-- The cells that a matrix may have.
abbrev pub IsSound : CellSpec → Type 0
IsSound c = (0 < c.rate_rps) × (c.rate_rps ≤ 64) × (0 < c.n_measure) × (c.seed < 2 ^ 32)

abbrev Counts : ℕ → List CellSpec → Type 0
Counts n cs = (length cs ≡ n) × All IsSound cs

for_each-Counts :
    {A : Type 0} (n : ℕ) (body : A → Result (List CellSpec)) (xs : List A)
    → ((x : A) → Ensures (Counts n) (body x))
    → Ensures (Counts (length xs * n)) (for_each xs body)
unfolding for_each
for_each-Counts n body [] each = (omega arith, tt)
for_each-Counts n body (x ∷ xs) each =
    Ensures-then (Counts (suc (length xs) * n)) (body x) _ (λ here e.
      Ensures-then (Counts (suc (length xs) * n)) (for_each xs body) _ (λ rest f.
        let h = of_Ensures (Counts n) (body x) (each x) e in
        let r =
          of_Ensures (Counts (length xs * n)) (for_each xs body) (for_each-Counts n body xs each)
            f in
        (omega (arith, h.0, r.0, length-append here rest), All-append IsSound here rest h.1 r.1)))

make_cell-IsSound :
    (t : Topology) (m : Model) (rate : ℕ) (mix : Mix) (n_warmup n_measure : ℕ) {c : CellSpec}
    → make_cell t m rate mix n_warmup n_measure 0 ≡ ok c
    → IsSound c
unfolding make_cell
make_cell-IsSound t m rate mix n_warmup n_measure e = ground (arith, derive_seed-lt t m rate mix)

-- When a matrix yields its cells, their number is `total_cells`, and each has a rate from 1 to
-- 64, at least one measured request and a seed of 32 bits.
pub cells-total_cells :
    (spec : MatrixSpec) {cs : List CellSpec}
    → cells spec ≡ ok cs
    → (length cs ≡ total_cells spec) × All IsSound cs
unfolding cells total_cells
cells-total_cells spec {cs = cs} e =
    let all : Counts
        (length spec.topologies
          * (length spec.models * (length spec.rates_rps * (length spec.mixes * 1))))
        cs =
      of_Ensures (Counts _) (cells spec)
        (for_each-Counts (length spec.models * (length spec.rates_rps * (length spec.mixes * 1))) _
          spec.topologies
          (λ t.
            for_each-Counts (length spec.rates_rps * (length spec.mixes * 1)) _ spec.models (λ m.
              for_each-Counts (length spec.mixes * 1) _ spec.rates_rps (λ rate.
                for_each-Counts 1 _ spec.mixes (λ mix.
                  Ensures-then (Counts 1) (make_cell t m rate mix spec.n_warmup spec.n_measure 0)
                    one
                    (λ c f. (
                      refl,
                      (make_cell-IsSound t m rate mix spec.n_warmup spec.n_measure f, tt),
                    )))))))
        e in
    (omega (arith, all.0), all.1)
