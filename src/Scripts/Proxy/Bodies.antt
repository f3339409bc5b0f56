-- ===== src/Scripts/Proxy/Bodies.antt =====
-- scripts/disagg_proxy.py: the bodies that the two stages receive, key by key.
use goodputlab.Prelude.{
  ◌≡◌, ◌≢◌, ◌∙◌, refl, ap, false, Option, none, some, Bool-cases, inl, inr, Option-cases,
}
use goodputlab.Prelude.Dict.{
  Distinct, lookup, contains, set, remove, lookup-set_ne, lookup-set_self, set-Distinct,
  lookup-remove_ne,
}
use goodputlab.Prelude.Dict.Recent.{lookup-remove_self}
use goodputlab.Prelude.Json.{Json, boolean}
use goodputlab.Prelude.Text.{Text, codes, text_discrete, text_ne}
use goodputlab.Scripts.Proxy.{Body, prefill_body, cap_completion, one, handshake}

abbrev pub value : Text → Body → Option Json
value k b = lookup text_discrete k b

abbrev max_completion_tokens : Text
max_completion_tokens = codes "max_completion_tokens"

-- The capping of one key touches no other and adds none.
value-cap_ne :
    (q : Text) (b : Body) → max_completion_tokens ≢ q → value q (cap_completion b) ≡ value q b
value-cap_ne q b ne = elim (Bool-cases (contains text_discrete max_completion_tokens b)) [
  | inl e ↦ rw e (lookup-set_ne text_discrete max_completion_tokens q one b ne)
  | inr e ↦ rw e
]

-- The value that a key has once it is capped.
abbrev pub capped : Option Json → Option Json
capped none = none
capped (some v) = some one

value-cap :
    (b : Body)
    → value max_completion_tokens (cap_completion b) ≡ capped (value max_completion_tokens b)
unfolding contains
value-cap b = elim (Option-cases (value max_completion_tokens b)) [
  | inl e ↦ rw (e, contains, cap_completion) e
  | inr (v, e) ↦
      rw (e, contains, cap_completion) (lookup-set_self text_discrete max_completion_tokens one b)
]

cap-Distinct : (b : Body) → Distinct b → Distinct (cap_completion b)
cap-Distinct b h = elim (Bool-cases (contains text_discrete max_completion_tokens b)) [
  | inl e ↦ rw e (set-Distinct text_discrete max_completion_tokens one b h)
  | inr e ↦ rw e h
]

-- A key that the prefill stage leaves alone.
abbrev pub IsKept : Text → Type 0
IsKept q =
    (codes "max_tokens" ≢ q)
    × (codes "max_completion_tokens" ≢ q)
    × (codes "stream" ≢ q)
    × (codes "stream_options" ≢ q)
    × (codes "kv_transfer_params" ≢ q)

module _ (body : Body) where
  abbrev limited : Body
  limited = set text_discrete (codes "max_tokens") one body

  abbrev unary : Body
  unary = set text_discrete (codes "stream") (boolean false) (cap_completion limited)

  abbrev pruned : Body
  pruned = remove text_discrete (codes "stream_options") unary

  value-pruned :
      (q : Text)
      → codes "stream_options" ≢ q
      → codes "kv_transfer_params" ≢ q
      → value q (prefill_body body) ≡ value q unary
  unfolding prefill_body
  value-pruned q ne ne2 =
      lookup-set_ne text_discrete (codes "kv_transfer_params") q handshake pruned ne2
      ∙ lookup-remove_ne text_discrete (codes "stream_options") q unary ne

  -- The body of the prefill stage asks for one token, not streamed, with the handshake: it has one
  -- token as its limit, and as its limit under the newer name if there is one; it does not stream
  -- and has no options of a stream; its parameters of the transfer are the handshake. Under each
  -- other key it has what the client's body has.
  prefill_body-value :
      Distinct body
      → (value (codes "max_tokens") (prefill_body body) ≡ some one)
        × (value (codes "max_completion_tokens") (prefill_body body)
            ≡ capped (value (codes "max_completion_tokens") body))
        × (value (codes "stream") (prefill_body body) ≡ some (boolean false))
        × (value (codes "stream_options") (prefill_body body) ≡ none)
        × (value (codes "kv_transfer_params") (prefill_body body) ≡ some handshake)
        × ((q : Text) → IsKept q → value q (prefill_body body) ≡ value q body)
  unfolding prefill_body text_discrete
  prefill_body-value h = (
    value-pruned (codes "max_tokens") (text_ne _ _ refl) (text_ne _ _ refl)
        ∙ lookup-set_ne text_discrete (codes "stream") (codes "max_tokens") (boolean false)
            (cap_completion limited) (text_ne _ _ refl)
        ∙ value-cap_ne (codes "max_tokens") limited (text_ne _ _ refl)
        ∙ lookup-set_self text_discrete (codes "max_tokens") one body,
    value-pruned (codes "max_completion_tokens") (text_ne _ _ refl) (text_ne _ _ refl)
        ∙ lookup-set_ne text_discrete (codes "stream") max_completion_tokens (boolean false)
            (cap_completion limited) (text_ne _ _ refl)
        ∙ value-cap limited
        ∙ ap capped (
            lookup-set_ne text_discrete (codes "max_tokens") max_completion_tokens one body
              (text_ne _ _ refl)),
    value-pruned (codes "stream") (text_ne _ _ refl) (text_ne _ _ refl)
        ∙ lookup-set_self text_discrete (codes "stream") (boolean false) (cap_completion limited),
    lookup-set_ne text_discrete (codes "kv_transfer_params") (codes "stream_options") handshake
          pruned (text_ne _ _ refl)
        ∙ lookup-remove_self text_discrete (codes "stream_options") unary (
            set-Distinct text_discrete (codes "stream") (boolean false) (cap_completion limited)
              (cap-Distinct limited (set-Distinct text_discrete (codes "max_tokens") one body h))),
    lookup-set_self text_discrete (codes "kv_transfer_params") handshake pruned,
    (λ q kept.
        value-pruned q kept.3 kept.4
        ∙ lookup-set_ne text_discrete (codes "stream") q (boolean false) (cap_completion limited)
            kept.2
        ∙ value-cap_ne q limited kept.1
        ∙ lookup-set_ne text_discrete (codes "max_tokens") q one body kept.0),
  )
