-- ===== src/Prelude/Json.antt =====
-- The values that `json.loads` builds, and the operations of Python that the code applies to them.
use goodputlab.Prelude.{zero, Bool, true, false, not, [], ◌∷◌, ite}
use goodputlab.Prelude.Int.{ℤ, pos}
use goodputlab.Prelude.Result.{Result, ok, raise, attribute_error, type_error, key_error}
use goodputlab.Prelude.Text.{Text, text_discrete}

-- Of a float its text is kept, and whether it is zero. The keys of an object are distinct.
mutual
  pub data Json : Type 0 where
    null : Json
    boolean : Bool → Json
    integer : ℤ → Json
    real : Bool → Text → Json
    text : Text → Json
    arr : Items → Json
    obj : Fields → Json

  pub data Items : Type 0 where
    nil : Items
    cons : Json → Items → Items

  pub data Fields : Type 0 where
    end : Fields
    field : Text → Json → Fields → Fields

-- `bool(value)`
unfoldable pub truthy : Json → Bool
truthy null = false
truthy (boolean b) = b
truthy (integer (pos zero)) = false
truthy (integer _) = true
truthy (real is_zero _) = not is_zero
truthy (text []) = false
truthy (text (_ ∷ _)) = true
truthy (arr nil) = false
truthy (arr (cons _ _)) = true
truthy (obj end) = false
truthy (obj (field _ _ _)) = true

-- `d.get(key, default)` of a dictionary.
unfoldable pub get_field : Text → Json → Fields → Json
unfolding text_discrete
get_field key default end = default
get_field key default (field k v fs) = ite (text_discrete k key) v (get_field key default fs)

-- `value.get(key, default)`, which only a dictionary has.
unfoldable pub get_or : Text → Json → Json → Result Json
unfolding get_field
get_or key default (obj fs) = ok (get_field key default fs)
get_or key default _ = raise attribute_error

-- `value[0]` of a value that is true.
unfoldable pub first : Json → Result Json
first (arr (cons v _)) = ok v
first (text (c ∷ _)) = ok (text (c ∷ []))
first (obj _) = raise key_error
first _ = raise type_error

-- `a or b`
abbrev pub or_else : Json → Json → Json
or_else a b = elim (truthy a) [ true ↦ a | false ↦ b ]
