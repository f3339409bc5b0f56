-- ===== src/Control/Router/Sticky.antt =====
-- The next request with the same prompt in control/router.py, after one that was load-balanced.
use goodputlab.Prelude.{
  ◌≤◌, ◌<◌, ◌≡◌, refl, ap, sym, subst, ◌∙◌, Option, none, some, List, [], ◌∷◌, ◌++◌, Option-cases,
  inl, inr, arith, length, length-append,
}
use goodputlab.Prelude.Dict
use goodputlab.Prelude.Dict.Recent.{set-absent, length-move_to_end}
use goodputlab.Prelude.Float.{FloatOps}
use goodputlab.Prelude.Text.{Text, text_discrete}
use goodputlab.Control.Pool.{Pool}
use goodputlab.Core.Trace.{RequestSpec}
use goodputlab.Control.Router.{
  Router, load_balance, drop_oldest, touch, count_no_history, remember, route, route_key,
  select_admissible, hit,
}
use goodputlab.Control.Router.Admission.{
  empty, cached, fresh, refused, route-Outcome, key, select_admissible-Admits,
}
use goodputlab.Control.Router.Cache.{IsValid}
use goodputlab.Control.Router.Decisions.{route-cached}

lookup-drop :
    (k : Text) (p : Pool) (c : List (Text × Pool))
    → Dict.lookup text_discrete k c ≡ none
    → 0 < length c
    → Dict.lookup text_discrete k (drop_oldest (c ++ (k, p) ∷ [])) ≡ some p
unfolding Dict.lookup
lookup-drop k p [] h pos = absurd (omega arith)
lookup-drop k p ((j, q) ∷ c) h pos =
    ground (arith, Dict.lookup-append text_discrete k c ((k, p) ∷ []))

module _ (fl : FloatOps) where
  lookup-remember :
      (r : Router fl) (k : Text) (p : Pool)
      → length r.prefix_cache ≤ r.cache_max
      → 0 < r.cache_max
      → Dict.lookup text_discrete k (remember fl r k p).prefix_cache ≡ some p
  unfolding remember
  lookup-remember r k p fits pos =
      elim (Option-cases (Dict.lookup text_discrete k r.prefix_cache)) [
        | inl absent ↦ ground (
          arith,
          set-absent text_discrete k p r.prefix_cache,
          Dict.lookup-set text_discrete k k p r.prefix_cache,
          lookup-drop k p r.prefix_cache,
          length-append r.prefix_cache ((k, p) ∷ []),
        )
        | inr (q, there) ↦ ground (
          arith,
          Dict.length-set text_discrete k p r.prefix_cache,
          Dict.lookup-set text_discrete k k p r.prefix_cache,
        )
      ]

  module _ (r : Router fl) (spec : RequestSpec) (k : Text) (p : Pool) where
    abbrev after : Router fl
    after = remember fl (count_no_history fl (touch fl r k)) k p

    same_choice : select_admissible fl after spec ≡ select_admissible fl r spec
    unfolding select_admissible touch count_no_history remember
    same_choice = refl

    same_key : (o : Option Pool) → route_key fl after spec o ≡ route_key fl r spec o
    unfolding route_key touch count_no_history remember
    same_key none = refl
    same_key (some q) = refl

    after-cached :
        IsValid fl r
        → 0 < r.cache_max
        → select_admissible fl r spec ≡ some p
        → k ≡ route_key fl r spec (select_admissible fl r spec)
        → (route fl after spec).1 ≡ hit p k
    unfolding touch count_no_history remember
    after-cached v pos c e =
        let (s, there, fits) = select_admissible-Admits fl r spec p v.pools c in
        let looked_up : route_key fl after spec (select_admissible fl after spec) ≡ k =
          ap (route_key fl after spec) same_choice ∙ (same_key _ ∙ sym e) in
        let known : Dict.lookup text_discrete k after.prefix_cache ≡ some p =
          lookup-remember (count_no_history fl (touch fl r k)) k p
            (omega (arith, length-move_to_end text_discrete k r.prefix_cache)) pos in
        subst (λ x. (route fl after spec).1 ≡ hit p x) looked_up
          (route-cached fl after spec p s
            (subst (λ x. Dict.lookup text_discrete x after.prefix_cache ≡ some p) (sym looked_up)
              known)
            there fits)

-- A request that was load-balanced is followed by a cache hit on the same pool when it is routed
-- again with nothing changed in between. The router is valid and its cache holds at least one
-- entry.
pub route-route :
    (fl : FloatOps) (r : Router fl) (spec : RequestSpec)
    → IsValid fl r
    → 0 < r.cache_max
    → (route fl r spec).1.reason ≡ load_balance
    → (route fl (route fl r spec).0 spec).1
      ≡ hit (route fl r spec).1.pool (route_key fl r spec (select_admissible fl r spec))
route-route fl r spec v pos why = elim (route-Outcome fl r spec) [
  | empty _ e ↦ absurd (ground arith)
  | cached p _ e ↦ absurd (ground arith)
  | fresh p _ c e ↦
      subst (λ d. (route fl d.0 spec).1 ≡ hit d.1.pool (key fl r spec)) (sym e)
        (after-cached fl r spec (key fl r spec) p v pos c refl)
  | refused _ _ e ↦ absurd (ground arith)
]
