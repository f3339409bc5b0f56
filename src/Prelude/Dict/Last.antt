-- ===== src/Prelude/Dict/Last.antt =====
-- A dictionary that keeps the last uses, beside the list of all keys in the order of their last
-- use, which has no bound.
use goodputlab.Prelude.{
  ℕ, ◌+◌, ◌-◌, ◌≤◌, ◌≡◌, ◌≢◌, ◌∙◌, refl, sym, ap, subst, if_pos, if_neg, none, some, List, [], ◌∷◌,
  ◌++◌, arith, length, length-append, drop, ◌⊎◌, inl, inr, All, ltb, false, if◌then◌else◌,
  Bool-cases,
}
use goodputlab.Prelude.Dict.{lookup, remove, set, Distinct, All-lookup, length-remove}
use goodputlab.Prelude.Dict.Recent.{
  set-absent, remove-Distinct, snoc-Distinct, remove_gone, lookup-remove_self,
}
use mathlib.Core.List.{append_assoc, append-nil}

-- The last entries, at most this many.
abbrev pub last {ℓ} : {A : Type ℓ} → ℕ → List A → List A
last n xs = drop (length xs - n) xs

drop-append {ℓ} : {A : Type ℓ} (xs ys : List A) → drop (length xs) (xs ++ ys) ≡ ys
drop-append [] ys = refl
drop-append (x ∷ xs) ys = drop-append xs ys

module _ {ℓ} {K V : Type ℓ} (dec : Discrete K) where
  -- A use of a key, as the latest.
  unfoldable pub promote : K → V → List (K × V) → List (K × V)
  unfolding remove
  promote k v s = remove dec k s ++ (k, v) ∷ []

  pub promote-Distinct : (k : K) (v : V) (s : List (K × V)) → Distinct s → Distinct (promote k v s)
  unfolding promote
  promote-Distinct k v s h =
      snoc-Distinct dec k v (remove dec k s) (remove-Distinct dec k s h) (remove_gone dec k s h)

  -- The cache is the end of the list, and the whole of it unless it is full.
  pub record Tracks (n : ℕ) (cache s : List (K × V)) : Type ℓ where
    pub old : List (K × V)
    pub split : s ≡ old ++ cache
    pub whole : (length cache ≡ n) ⊎ (old ≡ [])
    pub bounded : length cache ≤ n

  pub Tracks-last : (n : ℕ) (cache s : List (K × V)) → Tracks n cache s → cache ≡ last n s
  Tracks-last n cache s t = elim t.whole [
    | inl full ↦
        let size : length s - n ≡ length t.old =
          omega (arith, ap length t.split, length-append t.old cache, full) in
        sym (rw (size, t.split) (drop-append t.old cache))
    | inr young ↦
        let same : s ≡ cache = t.split ∙ ap (λ o. o ++ cache) young in
        let none_left : length s - n ≡ 0 = omega (arith, ap length same, t.bounded) in
        rw (none_left, drop) (sym same)
  ]

  remove-absent : (k : K) (d : List (K × V)) → lookup dec k d ≡ none → remove dec k d ≡ d
  unfolding remove lookup
  remove-absent k [] h = refl
  remove-absent k ((j, w) ∷ d) h = ground (arith, remove-absent k d)

  remove-append_left :
      (k : K) (a b : List (K × V))
      → lookup dec k b ≡ none
      → remove dec k (a ++ b) ≡ remove dec k a ++ b
  unfolding remove
  remove-append_left k [] b h = remove-absent k b h
  remove-append_left k ((j, w) ∷ a) b h = ground (arith, remove-append_left k a b h)

  remove-append_right :
      (k : K) (a b : List (K × V))
      → lookup dec k a ≡ none
      → remove dec k (a ++ b) ≡ a ++ remove dec k b
  unfolding remove lookup
  remove-append_right k [] b h = refl
  remove-append_right k ((j, w) ∷ a) b h = ground (arith, remove-append_right k a b)

  All-append_right : (P : K × V → Type ℓ) (a b : List (K × V)) → All P (a ++ b) → All P b
  All-append_right P [] b h = h
  All-append_right P (x ∷ a) b h = All-append_right P a b h.1

  -- A key of the end is not in the front.
  lookup-front :
      (k : K) (v : V) (a b : List (K × V))
      → Distinct (a ++ b)
      → lookup dec k b ≡ some v
      → lookup dec k a ≡ none
  unfolding lookup
  lookup-front k v [] b d h = refl
  lookup-front k v ((j, w) ∷ a) b d h =
      let ne : j ≢ k =
        All-lookup dec (λ e. j ≢ e.0) k v b (All-append_right (λ e. j ≢ e.0) a b d.0) h in
      if_neg (dec j k) ne _ _ ∙ lookup-front k v a b d.1 h

  set-last :
      (k : K) (v w : V) (d : List (K × V))
      → lookup dec k d ≡ none
      → set dec k w (d ++ (k, v) ∷ []) ≡ d ++ (k, w) ∷ []
  unfolding set lookup
  set-last k v w [] h = if_pos (dec k k) refl _ _
  set-last k v w ((j, u) ∷ d) h = ground (arith, set-last k v w d)

  module _ (n : ℕ) (cache s : List (K × V)) (k : K) (u : V) (t : Tracks n cache s) where
    -- A use of a key that is in the cache.
    pub Tracks-hit :
        (v : V)
        → Distinct s
        → lookup dec k cache ≡ some v
        → Tracks n (remove dec k cache ++ (k, u) ∷ []) (promote k u s)
    unfolding promote
    Tracks-hit v d h =
        let e : (K × V) = (k, u) in
        let front = lookup-front k v t.old cache (subst Distinct t.split d) h in
        let size : length (remove dec k cache ++ e ∷ []) ≡ length cache =
          omega
            (arith, length-append (remove dec k cache) (e ∷ []), length-remove dec k v cache h) in
        record {
          old = t.old;
          split =
              ap (λ x. remove dec k x ++ e ∷ []) t.split
              ∙ ap (λ x. x ++ e ∷ []) (remove-append_right k t.old cache front)
              ∙ append_assoc t.old (remove dec k cache) (e ∷ []);
          whole = elim t.whole [ inl full ↦ inl (size ∙ full) | inr young ↦ inr young ];
          bounded = omega (arith, size, t.bounded);
        }

    -- A use of another key, with room for it.
    pub Tracks-room :
        lookup dec k cache ≡ none
        → length cache + 1 ≤ n
        → Tracks n (cache ++ (k, u) ∷ []) (promote k u s)
    unfolding promote remove
    Tracks-room h room =
        let e : (K × V) = (k, u) in
        let young : t.old ≡ [] = elim t.whole [
          | inl full ↦ absurd (omega (arith, full, room))
          | inr young ↦ young
        ] in
        record {
          old = [];
          split =
              ap (λ x. remove dec k x ++ e ∷ []) (t.split ∙ ap (λ o. o ++ cache) young)
              ∙ ap (λ x. x ++ e ∷ []) (remove-absent k cache h);
          whole = inr refl;
          bounded = omega (arith, length-append cache (e ∷ []), room);
        }

-- A use of another key in a full cache, which loses its oldest entry.
module _ {ℓ} {K V : Type ℓ} (dec : Discrete K) where
  abbrev pub drop_first : List (K × V) → List (K × V)
  drop_first [] = []
  drop_first (e ∷ d) = d

  pub Tracks-full :
      (n : ℕ) (cache s : List (K × V)) (k : K) (u : V)
      → Tracks dec n cache s
      → lookup dec k cache ≡ none
      → length cache ≡ n
      → Tracks dec n (drop_first (cache ++ (k, u) ∷ [])) (promote dec k u s)
  unfolding promote
  Tracks-full n [] s k u t h full = record {
    old = promote dec k u s;
    split = sym (append-nil (promote dec k u s));
    whole = inl full;
    bounded = omega (arith, full);
  }
  Tracks-full n (c ∷ cache) s k u t h full =
      let e : (K × V) = (k, u) in
      let front = remove dec k t.old in
      record {
        old = front ++ c ∷ [];
        split =
            ap (λ x. remove dec k x ++ e ∷ []) t.split
            ∙ ap (λ x. x ++ e ∷ []) (remove-append_left dec k t.old (c ∷ cache) h)
            ∙ append_assoc front (c ∷ cache) (e ∷ [])
            ∙ sym (append_assoc front (c ∷ []) (cache ++ e ∷ []));
        whole = inl (omega (arith, length-append cache (e ∷ []), full));
        bounded = omega (arith, length-append cache (e ∷ []), full);
      }

  -- A write that keeps at most this many entries.
  abbrev pub set_within : ℕ → K → V → List (K × V) → List (K × V)
  set_within n k v d = let c = set dec k v d in if ltb n (length c) then drop_first c else c

  Distinct-append_right : (a b : List (K × V)) → Distinct (a ++ b) → Distinct b
  Distinct-append_right [] b h = h
  Distinct-append_right (e ∷ a) b h = Distinct-append_right a b h.1

  module _ (n : ℕ) (cache s : List (K × V)) (k : K) (u : V) (t : Tracks dec n cache s) where
    pub Tracks-set_within_miss :
        lookup dec k cache ≡ none → Tracks dec n (set_within n k u cache) (promote dec k u s)
    Tracks-set_within_miss h =
        let new = cache ++ (k, u) ∷ [] in
        let added = set-absent dec k u cache h in
        let size = length-append cache ((k, u) ∷ []) in
        elim (Bool-cases (ltb n (length new))) [
          | inl over ↦
              let full : length cache ≡ n = ground (arith, over, size, t.bounded) in
              rw (added, over) (Tracks-full n cache s k u t h full)
          | inr fits ↦
              let room : length cache + 1 ≤ n = ground (arith, fits, size) in
              rw (added, fits) (Tracks-room dec n cache s k u t h room)
        ]

    pub Tracks-set_within_hit :
        (v : V)
        → Distinct s
        → lookup dec k cache ≡ some v
        → Tracks dec n (set_within n k u (remove dec k cache ++ (k, v) ∷ [])) (promote dec k u s)
    Tracks-set_within_hit v d h =
        let distinct = Distinct-append_right t.old cache (subst Distinct t.split d) in
        let gone = lookup-remove_self dec k cache distinct in
        let written = set-last dec k v u (remove dec k cache) gone in
        let tracks = Tracks-hit dec n cache s k u t v d h in
        let fits : ltb n (length (remove dec k cache ++ (k, u) ∷ [])) ≡ false =
          ground (arith, tracks.bounded) in
        rw (written, fits) tracks
