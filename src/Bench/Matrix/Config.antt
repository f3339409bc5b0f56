-- ===== src/Bench/Matrix/Config.antt =====
-- bench/schema/matrix_config.py: the configuration of a sweep. The YAML text is read by a library,
-- so a configuration is what its fields hold; numbers that are rejected when they are not
-- positive are natural numbers.
pub mod Restrict
use goodputlab.Prelude.{
  ℕ, Bool, true, false, not, ◌&&◌, ◌||◌, Option, none, some, List, [], ◌∷◌, ◌++◌, ◌==◌,
  if◌then◌else◌, is_yes,
}
use goodputlab.Bench.Matrix.Aggregate.{topology_discrete, is_empty}
use goodputlab.Bench.Matrix.Cells.{Topology, Model, Mix, MatrixSpec}
use goodputlab.Prelude.Float.{FloatOps}
use goodputlab.Prelude.Int.{pos}
use goodputlab.Prelude.Result.{Result, ok, raise, value_error, raise_if, ◌>>=◌, ◌>>◌}
use goodputlab.Prelude.Sort.{filter}
use goodputlab.Prelude.Text.{Text, codes, text_discrete}
use mathlib.Core.Option

-- `list(Topology)` and so on.
abbrev pub all_topologies : List Topology
all_topologies = Topology.colocated ∷ Topology.chunked ∷ Topology.disagg ∷ Topology.disagg_tier ∷ []

abbrev pub all_models : List Model
all_models = Model.qwen3_1_7b ∷ Model.qwen2_5_7b ∷ Model.qwen3_30b ∷ []

abbrev pub all_mixes : List Mix
all_mixes = Mix.chat ∷ Mix.rag ∷ Mix.agentic ∷ []

-- `Topology(name)`
unfoldable pub topology_of : Text → Result Topology
unfolding text_discrete
topology_of name =
    if is_yes (text_discrete name (codes "colocated"))
    then ok Topology.colocated
    else if is_yes (text_discrete name (codes "chunked"))
    then ok Topology.chunked
    else if is_yes (text_discrete name (codes "disagg"))
    then ok Topology.disagg
    else if is_yes (text_discrete name (codes "disagg_tier"))
    then ok Topology.disagg_tier
    else raise value_error

unfoldable pub topologies_of : List Text → Result (List Topology)
unfolding topology_of
topologies_of [] = ok []
topologies_of (name ∷ names) = do t ← topology_of name; ts ← topologies_of names; ok (t ∷ ts)

abbrev pub is_allowed : List Topology → Topology → Bool
is_allowed [] t = false
is_allowed (a ∷ allowed) t = is_yes (topology_discrete a t) || is_allowed allowed t

abbrev has_zero : List ℕ → Bool
has_zero [] = false
has_zero (r ∷ rates) = r == 0 || has_zero rates

abbrev is_zero : Option ℕ → Bool
is_zero none = false
is_zero (some n) = n == 0

module _ (fl : FloatOps) where
  open fl use {F, of_int, lt}

  pub record MatrixSweepConfig : Type 0 where
    pub topologies : Option (List Topology)
    pub models : Option (List Model)
    pub rates_rps : Option (List ℕ)
    pub mixes : Option (List Mix)
    pub n_warmup : ℕ
    pub n_measure : ℕ
    pub cost_per_hour_usd : F
    pub smoke : Bool
    pub max_model_len : Option ℕ
    pub output_dir : Text
    pub pod_id : Text
    pub vllm_base_url_env : Text

  -- The validation of `MatrixSweepConfig`.
  unfoldable pub check_config : MatrixSweepConfig → Result MatrixSweepConfig
  check_config c = do
    raise_if (c.n_measure == 0) value_error
    raise_if (not (lt (of_int (pos 0)) c.cost_per_hour_usd)) value_error
    raise_if (is_zero c.max_model_len) value_error
    raise_if (is_empty c.pod_id || is_empty c.vllm_base_url_env) value_error
    raise_if (has_zero (Option.get_or c.rates_rps [])) value_error
    ok c

  unfoldable pub restrict_topologies : MatrixSweepConfig → List Text → Result MatrixSweepConfig
  unfolding topologies_of filter
  restrict_topologies c names = do
    wanted ← topologies_of names
    let allowed = Option.get_or c.topologies all_topologies
    raise_if (not (is_empty (filter (λ t. not (is_allowed allowed t)) wanted))) value_error
    ok (record c { topologies = some wanted })

  unfoldable pub to_matrix_spec : MatrixSweepConfig → MatrixSpec
  to_matrix_spec c = record {
    topologies = Option.get_or c.topologies all_topologies;
    models = Option.get_or c.models all_models;
    rates_rps = Option.get_or c.rates_rps (1 ∷ 2 ∷ 4 ∷ 8 ∷ 16 ∷ 32 ∷ []);
    mixes = Option.get_or c.mixes all_mixes;
    n_warmup = c.n_warmup;
    n_measure = c.n_measure;
  }
