-- ===== src/Bench/KvScaling/Theory/Exact.antt =====
-- What the theory numbers of a configuration say of its entries.
use goodputlab.Prelude.{
  ℕ, zero, suc, ◌+◌, ◌-◌, ◌*◌, Bool, ◌&&◌, ltb, if◌then◌else◌, [], ◌∷◌, All, Option-cases, inl, inr,
  ◌/◌, ◌%◌, ◌<◌, ◌≡◌, ◌≢◌, refl, sym, ap, ◌∙◌, some, if_neg, arith,
}
use goodputlab.Bench.KvScaling.Theory.{
  ConfigValue, Config, HfKvTheory, positive, kv_bytes_per_token, head_dim_from_config, config_value,
  config_int, kv_heads, config_from_hf_config, str_of, bytes_per_element_from_dtype, dtype_table,
  erase, lower,
}
use goodputlab.Prelude.Dict
use goodputlab.Prelude.Int.{ℤ, pos, negsuc}
use goodputlab.Prelude.Result.{
  ok, ◌>>=◌, Ensures, Ensures-then, of_Ensures, eq_ok-raise_if, eq_ok-bind, eq_of_ok, >>=-ext,
  value_error,
}
use goodputlab.Prelude.Text.{Text, codes, text_discrete, strip}

abbrev is_digit : ℕ → Bool
is_digit c = ltb 47 c && ltb c 58

abbrev number_from : ℕ → Text → ℕ
number_from n [] = n
number_from n (c ∷ s) =
    let rest = number_from (n * 10 + (c - 48)) s in if is_digit c then rest else n

-- The first number that a name has: the bits of an element, in the name of its type.
abbrev pub bits : Text → ℕ
bits [] = 0
bits (c ∷ s) = let rest = bits s in if is_digit c then number_from 0 (c ∷ s) else rest

-- The name of a type, in lower case and without the blanks and the prefix.
abbrev pub dtype_name : ConfigValue → Text
dtype_name v = erase (codes "torch.") 0 (lower (strip (str_of v)))

-- The entries that the numbers come from, and the equations between them.
pub record IsExact (config : Config) (t : HfKvTheory) : Type 0 where
  pub query_heads : ℕ
  pub hidden_size : ℕ
  pub layers_eq : config_int config (codes "num_hidden_layers") ≡ ok (pos t.n_layers)
  pub heads_eq : config_int config (codes "num_attention_heads") ≡ ok (pos query_heads)
  pub kv_eq : kv_heads config (pos query_heads) ≡ ok (pos t.n_kv_heads)
  pub size_eq : config_int config (codes "hidden_size") ≡ ok (pos hidden_size)
  pub dim_eq : t.head_dim * query_heads ≡ hidden_size
  pub dtype : ConfigValue
  pub dtype_eq : config_value config (codes "torch_dtype") ≡ ok dtype
  pub bits_eq : bits (dtype_name dtype) ≡ 8 * t.bytes_per_element
  pub bytes_eq :
      t.bytes_per_token ≡ 2 * t.n_layers * t.n_kv_heads * t.head_dim * t.bytes_per_element
  pub bytes_positive : 0 < t.bytes_per_token

positive-eq-ok : (z : ℤ) {n : ℕ} → positive z ≡ ok n → (z ≡ pos n) × (0 < n)
unfolding positive
positive-eq-ok z h = ground arith

head_dim-eq-ok :
    (size heads : ℤ) {dim : ℕ}
    → head_dim_from_config size heads ≡ ok (pos dim)
    → 0 < dim
    → (s : ℕ) × (n : ℕ) × (size ≡ pos s) × (heads ≡ pos n) × (dim * n ≡ s)
unfolding head_dim_from_config
head_dim-eq-ok (pos s) (pos (suc n)) {dim = dim} h up =
    let (even, same) = eq_ok-raise_if _ value_error (ok (pos (s / suc n))) h in
    let even' : s % suc n ≡ 0 = ground arith in
    let same' : s / suc n ≡ dim = ground arith in
    let whole : s / suc n * suc n ≡ s = omega arith in
    (s, suc n, refl, refl, ap (λ x. x * suc n) (sym same') ∙ whole)
head_dim-eq-ok (pos s) (pos zero) h up = cc
head_dim-eq-ok (pos s) (negsuc n) h up = cc
head_dim-eq-ok (negsuc s) (pos (suc n)) h up = absurd (ground arith)
head_dim-eq-ok (negsuc s) (pos zero) h up = cc
head_dim-eq-ok (negsuc s) (negsuc n) h up = cc

mul_positive : (a b : ℕ) → 0 < a → 0 < b → 0 < a * b
mul_positive (suc a) (suc b) ha hb = omega arith
mul_positive (suc a) zero ha hb = omega arith
mul_positive zero b ha hb = omega arith

product_positive : (a b c d : ℕ) → 0 < a → 0 < b → 0 < c → 0 < d → 0 < 2 * a * b * c * d
product_positive a b c d ha hb hc hd =
    mul_positive (2 * a * b * c) d
      (mul_positive (2 * a * b) c (mul_positive (2 * a) b (omega arith) hb) hc) hd

-- The last six steps of `config_from_hf_config`.
bytes-eq-ok :
    (a b c : ℤ) (d : ℕ) {n : ℕ}
    → kv_bytes_per_token a b c (pos d) ≡ ok n
    → (x : ℕ) × (y : ℕ) × (z : ℕ) × (positive a ≡ ok x)
      × (positive b ≡ ok y)
      × (positive c ≡ ok z)
      × (n ≡ 2 * x * y * z * d)
      × (0 < n)
unfolding kv_bytes_per_token
bytes-eq-ok a b c d {n = n} h =
    let (x, ex, h1) = eq_ok-bind _ (positive a) h in
    let (y, ey, h2) = eq_ok-bind _ (positive b) h1 in
    let (z, ez, h3) = eq_ok-bind _ (positive c) h2 in
    let (w, ew, h4) = eq_ok-bind _ (positive (pos d)) h3 in
    let (_, px) = positive-eq-ok a ex in
    let (_, py) = positive-eq-ok b ey in
    let (_, pz) = positive-eq-ok c ez in
    let (sd, pd) = positive-eq-ok (pos d) ew in
    let same : w ≡ d = cc in
    let total : n ≡ 2 * x * y * z * w = cc in
    (x, y, z, ex, ey, ez, rw same at total, rw total (product_positive x y z w px py pz pd))

-- Each type of the table has the width that its name tells.
dtype_table-bits : All (λ e. bits e.0 ≡ 8 * e.1) dtype_table
dtype_table-bits = (refl, (refl, (refl, (refl, (refl, (refl, (refl, (refl, (refl, tt)))))))))

bytes_per_element-bits :
    (v : ConfigValue) {n : ℕ}
    → bytes_per_element_from_dtype (str_of v) ≡ ok n
    → bits (dtype_name v) ≡ 8 * n
unfolding bytes_per_element_from_dtype
bytes_per_element-bits v {n = n} h =
    elim (Option-cases (Dict.lookup text_discrete (dtype_name v) dtype_table)) [
      | inl e ↦ let broken = rw (e, bytes_per_element_from_dtype) at h in cc
      | inr (m, e) ↦
          let same : ok m ≡ ok n = rw (e, bytes_per_element_from_dtype) at h in
          rw (← eq_of_ok same) (
            Dict.All-lookup text_discrete (λ e. bits e.0 ≡ 8 * e.1) (dtype_name v) m dtype_table
              dtype_table-bits e)
    ]

-- The numbers of a configuration whose entries were read, from the last four steps.
numbers-IsExact :
    (config : Config) (revision : Text) (layers heads kv size dim : ℤ) (dtype : ConfigValue)
    (bpe bytes : ℕ)
    → config_int config (codes "num_hidden_layers") ≡ ok layers
    → config_int config (codes "num_attention_heads") ≡ ok heads
    → kv_heads config heads ≡ ok kv
    → config_int config (codes "hidden_size") ≡ ok size
    → head_dim_from_config size heads ≡ ok dim
    → config_value config (codes "torch_dtype") ≡ ok dtype
    → bytes_per_element_from_dtype (str_of dtype) ≡ ok bpe
    → kv_bytes_per_token layers kv dim (pos bpe) ≡ ok bytes
    → Ensures (IsExact config) (do
      l ← positive layers
      k ← positive kv
      d ← positive dim
      ok (record {
        n_layers = l;
        n_kv_heads = k;
        head_dim = d;
        bytes_per_element = bpe;
        bytes_per_token = bytes;
        revision = revision;
      }))
numbers-IsExact config revision layers heads kv size dim dtype bpe bytes e1 e2 e3 e4 e5 e6 e7 e8 =
    let (x, y, z, ex, ey, ez, total, up) = bytes-eq-ok layers kv dim bpe e8 in
    let (lx, _) = positive-eq-ok layers ex in
    let (ky, _) = positive-eq-ok kv ey in
    let (dz, pz) = positive-eq-ok dim ez in
    let (s, n, es, en, whole) = head_dim-eq-ok size heads (e5 ∙ ap ok dz) pz in
    rw (ex, ey, ez)
      (record {
        query_heads = n;
        hidden_size = s;
        layers_eq = e1 ∙ ap ok lx;
        heads_eq = e2 ∙ ap ok en;
        kv_eq = rw (sym en) (e3 ∙ ap ok ky);
        size_eq = e4 ∙ ap ok es;
        dim_eq = whole;
        dtype = dtype;
        dtype_eq = e6;
        bits_eq = bytes_per_element-bits dtype e7;
        bytes_eq = total;
        bytes_positive = up;
      })

-- The numbers that a configuration is parsed to come from its entries: the query heads times the
-- head dimension give the hidden size, the bytes per element are the eighth of the number in the
-- name of the element type, and the bytes per token are positive and twice the product of the
-- layers, the KV heads, the head dimension and the bytes per element.
pub config_from_hf_config-IsExact :
    (config : Config) (revision : Text) {t : HfKvTheory}
    → config_from_hf_config config revision ≡ ok t
    → IsExact config t
unfolding config_from_hf_config
config_from_hf_config-IsExact config revision {t = t} h =
    of_Ensures (IsExact config) (config_from_hf_config config revision)
      (Ensures-then (IsExact config) (config_int config (codes "num_hidden_layers")) _ (λ layers e1.
        Ensures-then (IsExact config) (config_int config (codes "num_attention_heads")) _
          (λ heads e2. Ensures-then (IsExact config) (kv_heads config heads) _ (λ kv e3.
            Ensures-then (IsExact config) (config_int config (codes "hidden_size")) _ (λ size e4.
              Ensures-then (IsExact config) (head_dim_from_config size heads) _ (λ dim e5.
                Ensures-then (IsExact config) (config_value config (codes "torch_dtype")) _
                  (λ dtype e6.
                    Ensures-then (IsExact config) (bytes_per_element_from_dtype (str_of dtype)) _
                      (λ bpe e7.
                        Ensures-then (IsExact config) (kv_bytes_per_token layers kv dim (pos bpe)) _
                          (λ bytes e8.
                            numbers-IsExact config revision layers heads kv size dim dtype bpe bytes
                              e1 e2 e3 e4 e5 e6 e7 e8)))))))))
      h

module _ (config : Config) (v : ConfigValue) where
  abbrev with_head_dim : Config
  with_head_dim = Dict.set text_discrete (codes "head_dim") v config

  lookup-with_head_dim :
      (q : Text)
      → codes "head_dim" ≢ q
      → Dict.lookup text_discrete q with_head_dim ≡ Dict.lookup text_discrete q config
  lookup-with_head_dim q ne =
      Dict.lookup-set text_discrete (codes "head_dim") q v config
      ∙ if_neg (text_discrete (codes "head_dim") q) ne (some v) _

  config_value-with_head_dim :
      (q : Text) → codes "head_dim" ≢ q → config_value with_head_dim q ≡ config_value config q
  unfolding config_value
  config_value-with_head_dim q ne = rw (lookup-with_head_dim q ne, config_value) refl

  config_int-with_head_dim :
      (q : Text) → codes "head_dim" ≢ q → config_int with_head_dim q ≡ config_int config q
  unfolding config_int
  config_int-with_head_dim q ne = rw (config_value-with_head_dim q ne, config_int) refl

  kv_heads-with_head_dim : (n : ℤ) → kv_heads with_head_dim n ≡ kv_heads config n
  unfolding kv_heads Dict.contains
  kv_heads-with_head_dim n =
      rw
        (
          lookup-with_head_dim (codes "num_key_value_heads") (λ e. cc),
          config_int-with_head_dim (codes "num_key_value_heads") (λ e. cc),
          kv_heads,
          Dict.contains,
        )
        refl

  -- An entry `head_dim` has no influence.
  config_from_hf_config-set :
      (revision : Text)
      → config_from_hf_config (Dict.set text_discrete (codes "head_dim") v config) revision
        ≡ config_from_hf_config config revision
  unfolding config_from_hf_config
  config_from_hf_config-set revision =
      rw
        (
          config_int-with_head_dim (codes "num_hidden_layers") (λ e. cc),
          config_int-with_head_dim (codes "num_attention_heads") (λ e. cc),
          config_int-with_head_dim (codes "hidden_size") (λ e. cc),
          config_value-with_head_dim (codes "torch_dtype") (λ e. cc),
        )
        (>>=-ext (config_int config (codes "num_hidden_layers")) _ _ (λ layers.
          >>=-ext (config_int config (codes "num_attention_heads")) _ _
            (λ heads. rw (kv_heads-with_head_dim heads) refl)))
