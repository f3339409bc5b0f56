-- ===== src/Bench/Matrix/Cells.antt =====
-- bench/schema/cell_schema.py and the matrix of bench/runpod_matrix.py: the cells of a campaign.
pub mod Count
use goodputlab.Prelude.{
  ℕ, ◌+◌, ◌*◌, ◌%◌, ◌^◌, Bool, not, ◌&&◌, List, [], ◌∷◌, ◌++◌, leb, ◌==◌, if◌then◌else◌, length,
}
use goodputlab.Prelude.Result.{Result, ok, raise, value_error, raise_if, ◌>>=◌, ◌>>◌}
use goodputlab.Prelude.Text.{Text, codes, decimal}

pub data Topology : Type 0 where
  colocated chunked disagg disagg_tier : Topology

pub data Model : Type 0 where
  qwen3_1_7b qwen2_5_7b qwen3_30b : Model

pub data Mix : Type 0 where
  chat rag agentic : Mix

abbrev pub topology_value : Topology → Text
topology_value Topology.colocated = codes "colocated"
topology_value Topology.chunked = codes "chunked"
topology_value Topology.disagg = codes "disagg"
topology_value Topology.disagg_tier = codes "disagg_tier"

abbrev pub model_value : Model → Text
model_value Model.qwen3_1_7b = codes "qwen3-1.7b"
model_value Model.qwen2_5_7b = codes "qwen2.5-7b"
model_value Model.qwen3_30b = codes "qwen3-30b"

abbrev pub mix_value : Mix → Text
mix_value Mix.chat = codes "chat"
mix_value Mix.rag = codes "rag"
mix_value Mix.agentic = codes "agentic"

pub record CellSpec : Type 0 where
  pub topology : Topology
  pub model : Model
  pub rate_rps : ℕ
  pub mix : Mix
  pub n_warmup : ℕ
  pub n_measure : ℕ
  pub seed : ℕ

-- The loop of `_derive_seed`; `& 0xFFFFFFFF` keeps 32 bits.
unfoldable pub hash_from : ℕ → Text → ℕ
hash_from h [] = h
hash_from h (c ∷ s) = hash_from ((h * 131 + c) % 2 ^ 32) s

unfoldable pub derive_seed : Topology → Model → ℕ → Mix → ℕ
unfolding hash_from
derive_seed t m rate mix =
    hash_from 0
      (topology_value t ++ b'|' ∷ model_value m ++ b'|' ∷ decimal rate ++ b'|' ∷ mix_value mix)

unfoldable pub cell_id : CellSpec → Text
cell_id c =
    topology_value c.topology
    ++ codes "__"
    ++ model_value c.model
    ++ codes "__rate-"
    ++ decimal c.rate_rps
    ++ codes "__"
    ++ mix_value c.mix

-- The validation of a `CellSpec`, with `_default_seed`.
unfoldable pub make_cell : Topology → Model → ℕ → Mix → ℕ → ℕ → ℕ → Result CellSpec
unfolding derive_seed
make_cell t m rate mix n_warmup n_measure seed = do
  raise_if (not (leb 1 rate && leb rate 64)) value_error
  raise_if (n_measure == 0) value_error
  ok (record {
    topology = t;
    model = m;
    rate_rps = rate;
    mix = mix;
    n_warmup = n_warmup;
    n_measure = n_measure;
    seed = if seed == 0 then derive_seed t m rate mix else seed;
  })

pub record MatrixSpec : Type 0 where
  pub topologies : List Topology
  pub models : List Model
  pub rates_rps : List ℕ
  pub mixes : List Mix
  pub n_warmup : ℕ
  pub n_measure : ℕ

-- One loop of `cells`: the cells that the body yields for each element.
unfoldable pub for_each :
    {A : Type 0} → List A → (A → Result (List CellSpec)) → Result (List CellSpec)
for_each [] body = ok []
for_each (x ∷ xs) body = do here ← body x; rest ← for_each xs body; ok (here ++ rest)

abbrev pub one : CellSpec → Result (List CellSpec)
one c = ok (c ∷ [])

unfoldable pub cells : MatrixSpec → Result (List CellSpec)
unfolding for_each make_cell
cells spec = for_each spec.topologies (λ t. for_each spec.models (λ m.
    for_each spec.rates_rps (λ rate.
      for_each spec.mixes (λ mix. make_cell t m rate mix spec.n_warmup spec.n_measure 0 >>= one))))

unfoldable pub total_cells : MatrixSpec → ℕ
total_cells spec =
    length spec.topologies * length spec.models * length spec.rates_rps * length spec.mixes
