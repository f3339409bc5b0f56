-- ===== src/Bench/KvScaling/Theory.antt =====
-- bench/kv_scaling/theory.py: the bytes of KV cache per token, from a model's configuration.
pub mod Exact
use goodputlab.Prelude.{
  ℕ, zero, suc, ◌+◌, ◌-◌, ◌*◌, ◌/◌, ◌%◌, Bool, true, false, not, ◌&&◌, Option, none, some, List, [],
  ◌∷◌, ◌++◌, ltb, ◌==◌, if◌then◌else◌, length,
}
use goodputlab.Prelude.Dict
use goodputlab.Prelude.Int.{ℤ, pos, negsuc, sub_ℕ}
use goodputlab.Prelude.Result.{Result, ok, raise, value_error, key_error, raise_if, ◌>>=◌, ◌>>◌}
use goodputlab.Prelude.Text.{Text, codes, text_discrete, starts_with, decimal, strip}

-- A value of a JSON object. Of a value that is none of the first three only its `str` is read.
pub data ConfigValue : Type 0 where
  integer : ℤ → ConfigValue
  boolean : Bool → ConfigValue
  text : Text → ConfigValue
  other : Text → ConfigValue

abbrev pub Config : Type 0
Config = List (Text × ConfigValue)

pub record HfKvTheory : Type 0 where
  pub n_layers : ℕ
  pub n_kv_heads : ℕ
  pub head_dim : ℕ
  pub bytes_per_element : ℕ
  pub bytes_per_token : ℕ
  pub revision : Text

-- `value <= 0` raises.
unfoldable pub positive : ℤ → Result ℕ
positive (pos (suc n)) = ok (suc n)
positive _ = raise value_error

unfoldable pub kv_bytes_per_token : ℤ → ℤ → ℤ → ℤ → Result ℕ
unfolding positive
kv_bytes_per_token n_layers n_kv_heads head_dim bytes_per_element = do
  layers ← positive n_layers
  heads ← positive n_kv_heads
  dim ← positive head_dim
  bytes ← positive bytes_per_element
  ok (2 * layers * heads * dim * bytes)

-- `%` and `//` round down, so a negative size has a negative quotient.
unfoldable pub head_dim_from_config : ℤ → ℤ → Result ℤ
head_dim_from_config (pos size) (pos (suc n)) = do
  raise_if (not (size % suc n == 0)) value_error
  ok (pos (size / suc n))
head_dim_from_config (negsuc size) (pos (suc n)) = do
  raise_if (not (suc size % suc n == 0)) value_error
  ok (sub_ℕ 0 (suc size / suc n))
head_dim_from_config size _ = raise value_error

-- `s.lower()` of ASCII. No other letter has the lower case of one in a name of the table.
abbrev pub lower : Text → Text
lower [] = []
lower (c ∷ s) = (if ltb 64 c && ltb c 91 then c + 32 else c) ∷ lower s

-- `s.replace(p, "")`; the number counts the characters of a match that are still to go.
abbrev pub erase : Text → ℕ → Text → Text
erase p k [] = []
erase p (suc k) (c ∷ s) = erase p k s
erase p zero (c ∷ s) =
    let rest = erase p (length p - 1) s in
    let kept = erase p 0 s in if starts_with p (c ∷ s) then rest else c ∷ kept

abbrev pub dtype_table : List (Text × ℕ)
dtype_table =
    (codes "float32", 4)
    ∷ (codes "fp32", 4)
    ∷ (codes "float16", 2)
    ∷ (codes "fp16", 2)
    ∷ (codes "bfloat16", 2)
    ∷ (codes "bf16", 2)
    ∷ (codes "float8_e4m3fn", 1)
    ∷ (codes "float8_e5m2", 1)
    ∷ (codes "fp8", 1)
    ∷ []

unfoldable pub bytes_per_element_from_dtype : Text → Result ℕ
unfolding Dict.lookup text_discrete strip
bytes_per_element_from_dtype dtype =
    elim (Dict.lookup text_discrete (erase (codes "torch.") 0 (lower (strip dtype))) dtype_table) [
      | none ↦ raise value_error
      | some n ↦ ok n
    ]

-- `config[key]`
unfoldable pub config_value : Config → Text → Result ConfigValue
unfolding Dict.lookup text_discrete
config_value config key = elim (Dict.lookup text_discrete key config) [
  | none ↦ raise key_error
  | some v ↦ ok v
]

abbrev pub integer_of : ConfigValue → Result ℤ
integer_of (integer n) = ok n
integer_of _ = raise value_error

unfoldable pub config_int : Config → Text → Result ℤ
unfolding config_value
config_int config key = config_value config key >>= integer_of

-- `str(value)`
abbrev pub str_of : ConfigValue → Text
str_of (integer (pos n)) = decimal n
str_of (integer (negsuc n)) = b'-' ∷ decimal (suc n)
str_of (boolean true) = codes "True"
str_of (boolean false) = codes "False"
str_of (text s) = s
str_of (other s) = s

-- The KV heads, or the query heads in a configuration without grouped queries.
unfoldable pub kv_heads : Config → ℤ → Result ℤ
unfolding Dict.contains config_int
kv_heads config n_query_heads =
    if Dict.contains text_discrete (codes "num_key_value_heads") config
    then config_int config (codes "num_key_value_heads")
    else ok n_query_heads

-- The four numbers are positive when the last step returns, so the natural numbers keep them.
unfoldable pub config_from_hf_config : Config → Text → Result HfKvTheory
unfolding config_int kv_heads kv_bytes_per_token
config_from_hf_config config revision = do
  n_layers ← config_int config (codes "num_hidden_layers")
  n_query_heads ← config_int config (codes "num_attention_heads")
  n_kv_heads ← kv_heads config n_query_heads
  hidden_size ← config_int config (codes "hidden_size")
  head_dim ← head_dim_from_config hidden_size n_query_heads
  dtype ← config_value config (codes "torch_dtype")
  bpe ← bytes_per_element_from_dtype (str_of dtype)
  bytes ← kv_bytes_per_token n_layers n_kv_heads head_dim (pos bpe)
  layers ← positive n_layers
  heads ← positive n_kv_heads
  dim ← positive head_dim
  ok (record {
    n_layers = layers;
    n_kv_heads = heads;
    head_dim = dim;
    bytes_per_element = bpe;
    bytes_per_token = bytes;
    revision = revision;
  })
