-- ===== src/Prelude/Text.antt =====
-- Python's `str` as the list of its code points, and `bytes` as the list of the byte values.
use Prim.Native.Char.{code}
use Prim.Native.String.{String}
use goodputlab.Prelude.{
  ℕ, zero, suc, ◌+◌, ◌/◌, ◌%◌, Bool, true, false, ◌&&◌, ◌||◌, List, [], ◌∷◌, ◌++◌, ltb, leb, ◌==◌,
  length, if◌then◌else◌, ℕ_discrete, is_yes, ◌≡◌, ◌≢◌, refl,
}

abbrev pub Text : Type 0
Text = List ℕ

abbrev pub Bytes : Type 0
Bytes = List ℕ

abbrev pub codes : String → Text
codes String.[] = []
codes (String.◌∷◌ c s) = code c ∷ codes s

unfoldable pub text_discrete : Discrete Text
unfolding ℕ_discrete
text_discrete = List.discrete_by_fields ℕ ℕ_discrete

-- For two texts that are written out, `text_ne s t refl`.
pub text_ne : (s t : Text) → is_yes (text_discrete s t) ≡ false → s ≢ t
text_ne s t h e =
    elim (text_discrete s t) as (λ d. is_yes d ≡ false → ⊥) [
      | yes _ ↦ (λ k. cc)
      | no ne ↦ (λ k. ne e)
    ]
      h

pub text_eq : (s t : Text) → s ≡ t → is_yes (text_discrete s t) ≡ true
text_eq s t e = elim (text_discrete s t) as (λ d. is_yes d ≡ true) [
  | yes _ ↦ refl
  | no ne ↦ absurd (ne e)
]

-- `s <= t`: the order of the code points, a prefix first.
unfoldable pub text_leb : Text → Text → Bool
text_leb [] t = true
text_leb (c ∷ s) [] = false
text_leb (c ∷ s) (d ∷ t) = if c == d then text_leb s t else ltb c d

-- `s.encode("utf-8")`
unfoldable pub encode : Text → Bytes
encode [] = []
encode (c ∷ s) =
    (if ltb c 0x80
      then c ∷ []
      else if ltb c 0x800
      then (0xC0 + c / 0x40) ∷ (0x80 + c % 0x40) ∷ []
      else if ltb c 0x10000
      then (0xE0 + c / 0x1000) ∷ (0x80 + c / 0x40 % 0x40) ∷ (0x80 + c % 0x40) ∷ []
      else (0xF0 + c / 0x40000)
        ∷ (0x80 + c / 0x1000 % 0x40)
        ∷ (0x80 + c / 0x40 % 0x40)
        ∷ (0x80 + c % 0x40)
        ∷ [])
    ++ encode s

-- `str(n)`: the digits of `n` before those that are there, on fuel above `n`.
unfoldable pub digits_from : ℕ → ℕ → Text → Text
digits_from zero n s = s
digits_from (suc fuel) n s =
    let rest = digits_from fuel (n / 10) ((b'0' + n % 10) ∷ s) in
    if ltb n 10 then (b'0' + n) ∷ s else rest

unfoldable pub decimal : ℕ → Text
unfolding digits_from
decimal n = digits_from (suc n) n []

-- `s.startswith(p)`
abbrev pub starts_with : Text → Text → Bool
starts_with [] s = true
starts_with (c ∷ p) [] = false
starts_with (c ∷ p) (d ∷ s) = c == d && starts_with p s

-- `str.isspace` on one code point, as `str.strip` asks it.
unfoldable pub is_space : ℕ → Bool
is_space c =
    (leb 9 c && leb c 13)
    || ((leb 28 c && leb c 32)
        || (c == 0x85
            || (c == 0xA0
                || (c == 0x1680
                    || ((leb 0x2000 c && leb c 0x200A)
                        || (c == 0x2028
                            || (c == 0x2029 || (c == 0x202F || (c == 0x205F || c == 0x3000)))))))))

abbrev pub lstrip : Text → Text
lstrip [] = []
lstrip (c ∷ s) = if is_space c then lstrip s else c ∷ s

-- `s.rstrip(…)`: without the characters at the end that are in the set.
abbrev pub rstrip_by : (ℕ → Bool) → Text → Text
rstrip_by p [] = []
rstrip_by p (c ∷ s) = let rest = rstrip_by p s in if p c && length rest == 0 then [] else c ∷ rest

-- `s.strip()`
unfoldable pub strip : Text → Text
strip s = lstrip (rstrip_by is_space s)
