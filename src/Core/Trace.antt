-- ===== src/Core/Trace.antt =====
-- core/trace.py: the requests, their telemetry and the traces, with the validators that run when
-- a value is constructed.
pub mod Valid
use goodputlab.Prelude.{
  ℕ, Bool, true, false, ◌&&◌, ◌||◌, not, Option, none, some, List, [], ◌∷◌, if◌then◌else◌, ltb, leb,
  ◌==◌, length,
}
use goodputlab.Prelude.Float.{FloatOps}
use goodputlab.Prelude.Int.{ℤ, pos}
use goodputlab.Prelude.Result.{Result, ok, value_error, raise_if, ◌>>◌}
use goodputlab.Prelude.Text.{Text, is_space}

pub data WorkloadType : Type 0 where
  chat rag agentic : WorkloadType

pub data SloClass : Type 0 where
  interactive batch : SloClass

pub record RequestSpec : Type 0 where
  pub request_id : Text
  pub slo_class : SloClass
  pub workload : WorkloadType
  pub prompt_tokens : ℕ
  pub output_tokens : ℕ
  pub prompt_text : Text

-- `not v.strip()`: every character is white space.
unfoldable pub is_blank : Text → Bool
unfolding is_space
is_blank [] = true
is_blank (c ∷ s) = is_space c && is_blank s

-- The validation of `RequestSpec`.
unfoldable pub make_spec : Text → SloClass → WorkloadType → ℕ → ℕ → Text → Result RequestSpec
unfolding is_blank
make_spec ident slo workload prompt output text = do
  raise_if (is_blank ident) value_error
  raise_if (not (leb 1 prompt && leb prompt 200000)) value_error
  raise_if (not (leb 1 output && leb output 16000)) value_error
  ok (record {
    request_id = ident;
    slo_class = slo;
    workload = workload;
    prompt_tokens = prompt;
    output_tokens = output;
    prompt_text = text;
  })

-- The loop of `_per_token_monotonic`: true if it raises.
unfoldable pub falls : Option ℕ → List ℕ → Bool
falls prev [] = false
falls none (curr ∷ v) = falls (some curr) v
falls (some prev) (curr ∷ v) = if ltb curr prev then true else falls (some curr) v

pub data Process : Type 0 where
  poisson on_off : Process

module _ (fl : FloatOps) where
  open fl use {F, of_int, add, mul, div, lt, le}

  pub record RequestTelemetry : Type 0 where
    pub request_id : Text
    pub prompt_tokens : ℕ
    pub enqueue_ts_ns : ℕ
    pub ttft_ms : Option F
    pub per_token_ts_ns : List ℕ
    pub completion_ts_ns : Option ℕ
    pub status_code : ℕ
    pub error : Option Text
    pub routed_pool : Option Text

  -- The validation of `RequestTelemetry`.
  unfoldable pub check_telemetry : RequestTelemetry → Result RequestTelemetry
  unfolding falls
  check_telemetry t = do
    raise_if (not (leb 1 t.prompt_tokens && leb t.prompt_tokens 200000)) value_error
    raise_if (not (leb 100 t.status_code && leb t.status_code 599)) value_error
    raise_if (falls none t.per_token_ts_ns) value_error
    ok t

  pub record ArrivalConfig : Type 0 where
    pub process : Process
    pub rate_per_sec : F
    pub seed : ℤ
    pub on_duration_s : Option F
    pub off_duration_s : Option F

  -- `Field(gt=0)`, which an absent value passes.
  abbrev positive_or_absent : Option F → Bool
  positive_or_absent none = true
  positive_or_absent (some v) = lt (of_int (pos 0)) v

  abbrev absent : Option F → Bool
  absent none = true
  absent (some _) = false

  abbrev is_on_off : Process → Bool
  is_on_off poisson = false
  is_on_off on_off = true

  -- The validation of `ArrivalConfig`, `model_post_init` included.
  unfoldable pub check_arrival : ArrivalConfig → Result ArrivalConfig
  check_arrival a = do
    raise_if (not (lt (of_int (pos 0)) a.rate_per_sec)) value_error
    raise_if (not (positive_or_absent a.on_duration_s)) value_error
    raise_if (not (positive_or_absent a.off_duration_s)) value_error
    raise_if (is_on_off a.process && (absent a.on_duration_s || absent a.off_duration_s))
        value_error
    ok a

  pub record Trace : Type 0 where
    pub workload : WorkloadType
    pub seed : ℤ
    pub duration_s : F
    pub arrival : ArrivalConfig
    pub requests : List RequestSpec

  abbrev pub n_requests : Trace → ℕ
  n_requests t = length t.requests
