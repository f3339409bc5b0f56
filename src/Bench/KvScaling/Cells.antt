-- ===== src/Bench/KvScaling/Cells.antt =====
-- bench/kv_scaling: the record of a measured cell (schema.py), its measurement on an engine
-- (run_cell of measure.py) and the artifact that a sweep resumes from (results.py). What is
-- logged is left out. The JSON library is a pair of parameters, and the file system is the text
-- that a path has, if it has one.
pub mod Measured
use goodputlab.Prelude.{
  ℕ, zero, suc, ◌+◌, ◌-◌, ◌*◌, ◌/◌, Bool, true, false, not, ◌&&◌, ◌||◌, Option, none, some, List,
  [], ◌∷◌, ◌++◌, map, ltb, ◌==◌, if◌then◌else◌, length, is_yes, replicate, max,
}
use goodputlab.Bench.KvScaling.Engine.{Action, EngineDriver, ◌>>=◌, ◌>>◌, lift}
use goodputlab.Bench.KvScaling.Window.{Sample, SampleReadings, sample_decode_window}
use goodputlab.Prelude.Int.{ℤ}
use goodputlab.Prelude.Result.{
  Result, ok, raise, value_error, index_error, zero_division_error, raise_if,
}
use goodputlab.Prelude.Text.{Text, codes, decimal, text_discrete}

-- The computed fields are functions of these.
pub record KvScalingCell : Type 0 where
  pub model_id : Text
  pub gpu : Text
  pub vllm_version : Text
  pub seq_len : ℕ
  pub batch_size : ℕ
  pub n_samples : ℕ
  pub kv_bytes_used_samples : List ℤ
  pub kv_bytes_prefill_samples : Option (List ℤ)
  pub total_tokens : ℕ
  pub baseline_bytes : ℕ
  pub method : Text

abbrev has_length : {A : Type 0} → ℕ → Option (List A) → Bool
has_length n none = true
has_length n (some xs) = length xs == n

-- The validation of `KvScalingCell`.
unfoldable pub check_cell : KvScalingCell → Result KvScalingCell
check_cell c =
    if c.seq_len == 0
      || (c.batch_size == 0
          || (c.n_samples == 0 || (length c.kv_bytes_used_samples == 0 || c.total_tokens == 0)))
    then raise value_error
    else if not (length c.kv_bytes_used_samples == c.n_samples)
    then raise value_error
    else if not (has_length c.n_samples c.kv_bytes_prefill_samples)
    then raise value_error
    else ok c

-- `ceil(batch_size * seq_len / max_num_batched_tokens)`
unfoldable pub prefill_chunks : ℕ → ℕ → ℕ → Result ℕ
prefill_chunks batch seq zero = raise zero_division_error
prefill_chunks batch seq (suc m) = ok ((batch * seq + m) / suc m)

abbrev pub extended_decode_tokens : ℕ
extended_decode_tokens = 5 * 6

unfoldable pub cell_decode_tokens : ℕ → ℕ
cell_decode_tokens decode = max decode extended_decode_tokens

pub record SweepContext : Type 0 where
  pub campaign_id : Text
  pub model_id : Text
  pub model_revision : Text
  pub gpu : Text
  pub vllm_version : Text
  pub theory_bpt : ℕ
  pub baseline_bytes : ℕ
  pub block_size : ℕ
  pub decode_tokens : ℕ
  pub method : Text
  pub max_num_batched_tokens : ℕ

-- The arguments of `run_cell` that say which cell it is.
pub record Point : Type 0 where
  pub seq_len : ℕ
  pub batch_size : ℕ
  pub n_samples : ℕ
  pub prompts : List Text

abbrev pub request_name : SweepContext → Point → ℕ → ℕ → Text
request_name ctx p i k =
    ctx.campaign_id
    ++ (codes "-s"
        ++ (decimal p.seq_len
            ++ (codes "-b"
                ++ (decimal p.batch_size
                    ++ (codes "-n" ++ (decimal i ++ (codes "-r" ++ decimal k)))))))

-- The names of the requests from the k-th on.
abbrev pub request_names : SweepContext → Point → ℕ → ℕ → ℕ → List Text
request_names ctx p i zero k = []
request_names ctx p i (suc n) k = request_name ctx p i k ∷ request_names ctx p i n (k + 1)

-- The arguments of the i-th sample.
unfoldable pub sample_of : SweepContext → Point → ℕ → ℕ → Sample
unfolding cell_decode_tokens
sample_of ctx p chunks i = record {
  request_ids = request_names ctx p i p.batch_size 0;
  prompts = p.prompts;
  prompt_lens = replicate p.batch_size p.seq_len;
  decode_tokens = cell_decode_tokens ctx.decode_tokens;
  ignore_eos = true;
  prefill_chunks = chunks;
  theory_bpt = ctx.theory_bpt;
  block_size = ctx.block_size;
}

abbrev pub any_other : ℕ → List SampleReadings → Bool
any_other live [] = false
any_other live (r ∷ rs) = not (r.live_tokens_decode == live) || any_other live rs

abbrev pub cell_of : SweepContext → Point → ℕ → List SampleReadings → KvScalingCell
cell_of ctx p live rs = record {
  model_id = ctx.model_id;
  gpu = ctx.gpu;
  vllm_version = ctx.vllm_version;
  seq_len = p.seq_len;
  batch_size = p.batch_size;
  n_samples = p.n_samples;
  kv_bytes_used_samples = map (λ (r : SampleReadings). r.kv_bytes_decode) rs;
  kv_bytes_prefill_samples = some (map (λ (r : SampleReadings). r.kv_bytes_prefill) rs);
  total_tokens = live;
  baseline_bytes = ctx.baseline_bytes;
  method = ctx.method;
}

-- What follows the samples.
unfoldable pub summarize : SweepContext → Point → List SampleReadings → Result KvScalingCell
unfolding check_cell
summarize ctx p [] = raise index_error
summarize ctx p (r ∷ rs) =
    if any_other r.live_tokens_decode (r ∷ rs)
    then raise value_error
    else check_cell (cell_of ctx p r.live_tokens_decode (r ∷ rs))

module _ (engine : EngineDriver) (ctx : SweepContext) (p : Point) where
  open engine use {Driver}

  -- The loop, with `n` samples to go from the i-th on.
  unfoldable pub take_samples : ℕ → ℕ → ℕ → Action Driver (List SampleReadings)
  unfolding sample_decode_window
  take_samples chunks zero i = lift (ok [])
  take_samples chunks (suc n) i = do
    r ← sample_decode_window engine (sample_of ctx p chunks i)
    rs ← take_samples chunks n (i + 1)
    lift (ok (r ∷ rs))

  unfoldable pub measure_cell : ℕ → Action Driver KvScalingCell
  unfolding take_samples summarize
  measure_cell chunks = do rs ← take_samples chunks p.n_samples 0; lift (summarize ctx p rs)

  -- The guards, and the number of chunks.
  abbrev pub plan : Result ℕ
  plan =
      if p.n_samples == 0 || not (length p.prompts == p.batch_size)
      then raise value_error
      else prefill_chunks p.batch_size p.seq_len ctx.max_num_batched_tokens

  unfoldable pub run_cell : Action Driver KvScalingCell
  unfolding prefill_chunks measure_cell
  run_cell = do chunks ← lift plan; measure_cell chunks

-- `model_validate_json` parses the fields and validates them.
module _ (parse : Text → Option KvScalingCell) (dump : KvScalingCell → Text) where
  abbrev pub model_validate_json : Text → Result KvScalingCell
  model_validate_json raw = elim (parse raw) [ none ↦ raise value_error | some c ↦ check_cell c ]

  -- The text that is written for a cell.
  unfoldable pub write_cell_json : KvScalingCell → Text
  write_cell_json c = dump c ++ 10 ∷ []

  abbrev pub is_expected : ℕ → ℕ → ℕ → Text → KvScalingCell → Bool
  is_expected seq batch n model c =
      c.seq_len == seq
      && (c.batch_size == batch && (c.n_samples == n && is_yes (text_discrete c.model_id model)))

  abbrev pub if_expected : ℕ → ℕ → ℕ → Text → Result KvScalingCell → Option KvScalingCell
  if_expected seq batch n model (raise _) = none
  if_expected seq batch n model (ok c) = if is_expected seq batch n model c then some c else none

  unfoldable pub read_cell_json : Option Text → ℕ → ℕ → ℕ → Text → Option KvScalingCell
  unfolding check_cell text_discrete
  read_cell_json none seq batch n model = none
  read_cell_json (some raw) seq batch n model =
      if_expected seq batch n model (model_validate_json raw)
