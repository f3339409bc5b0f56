-- ===== src/Bench/KvScaling/Fake/Lockstep.antt =====
-- The window's own count of a batch that decodes in step, which agrees with the engine's.
use goodputlab.Prelude.{
  ℕ, suc, ◌+◌, ◌≡◌, ◌≢◌, refl, sym, subst, ◌∙◌, ap, Bool, true, false, none, some, List, [], ◌∷◌,
  ◌++◌, arith, if◌then◌else◌, All, All-map, if_pos, if_neg,
}
use goodputlab.Bench.KvScaling.Fake.Uniform.{Batch, ids, lens, tag, out, outs, live}
use goodputlab.Bench.KvScaling.Window.{
  Progress, tokens_of, is_finished, active, live_tokens, all_started, any_value, all_values,
  record_output, record_outputs, from_keys,
}
use goodputlab.Prelude.Dict.{lookup, set}
use goodputlab.Prelude.Dict.Recent.{set-absent}
use goodputlab.Prelude.Result.{ok}
use goodputlab.Prelude.Sort.{filter}
use goodputlab.Prelude.Text.{Text, text_discrete}
use mathlib.Core.List.{append_assoc, append-nil}

-- A request that is not in the batch.
abbrev pub IsNew : Text → Batch → Type 0
IsNew k b = All (λ e. e.0 ≢ k) b

-- The names are distinct.
abbrev pub IsDistinct : Batch → Type 0
IsDistinct [] = Unit
IsDistinct (e ∷ b) = All (λ f. e.0 ≢ f.0) b × IsDistinct b

abbrev pub progress : Bool → ℕ → Batch → Progress
progress fin j b = record { generated = tag j b; finished = tag fin b }

pub IsDistinct-front :
    (a : Batch) (e : Text × ℕ) (b : Batch) → IsDistinct (a ++ e ∷ b) → IsNew e.0 a
IsDistinct-front [] e b h = tt
IsDistinct-front (f ∷ a) e b h = (All-middle a e b h.0, IsDistinct-front a e b h.1)
  where
    All-middle :
        (a : Batch) (e : Text × ℕ) (b : Batch) → All (λ g. f.0 ≢ g.0) (a ++ e ∷ b) → f.0 ≢ e.0
    All-middle [] e b k = k.0
    All-middle (g ∷ a) e b k = All-middle a e b k.1

module _ {A : Type 0} (v : A) where
  tag-append : (a b : Batch) → tag v (a ++ b) ≡ tag v a ++ tag v b
  tag-append [] b = refl
  tag-append (e ∷ a) b = ap (λ t. (e.0, v) ∷ t) (tag-append a b)

  lookup-tag_new : (k : Text) (a : Batch) → IsNew k a → lookup text_discrete k (tag v a) ≡ none
  unfolding lookup
  lookup-tag_new k [] h = refl
  lookup-tag_new k (e ∷ a) h = if_neg (text_discrete e.0 k) h.0 _ _ ∙ lookup-tag_new k a h.1

  -- A write in the middle, under a key that is not in front.
  set-middle :
      (k : Text) (w u : A) (a : List (Text × A)) (c : List (Text × A))
      → lookup text_discrete k a ≡ none
      → set text_discrete k w (a ++ (k, u) ∷ c) ≡ a ++ (k, w) ∷ c
  unfolding set lookup
  set-middle k w u [] c h = if_pos (text_discrete k k) refl _ _
  set-middle k w u ((i, x) ∷ a) c h = ground (arith, set-middle k w u a c)

  lookup-middle :
      (k : Text) (u : A) (a : List (Text × A)) (c : List (Text × A))
      → lookup text_discrete k a ≡ none
      → lookup text_discrete k (a ++ (k, u) ∷ c) ≡ some u
  unfolding lookup
  lookup-middle k u [] c h = if_pos (text_discrete k k) refl _ _
  lookup-middle k u ((i, x) ∷ a) c h = ground (arith, lookup-middle k u a c)

  -- `dict.fromkeys` of the names that are left, on top of those before.
  pub from_keys-tag :
      (a b : Batch) → IsDistinct (a ++ b) → from_keys v (ids b) (tag v a) ≡ tag v (a ++ b)
  from_keys-tag a [] h = ap (tag v) (sym (append-nil a))
  from_keys-tag a (e ∷ b) h =
      let here =
        set-absent text_discrete e.0 v (tag v a)
          (lookup-tag_new e.0 a (IsDistinct-front a e b h)) in
      let one_more = here ∙ sym (tag-append a (e ∷ [])) in
      ap (from_keys v (ids b)) one_more
      ∙ from_keys-tag (a ++ e ∷ []) b (subst IsDistinct (sym (append_assoc a (e ∷ []) b)) h)
      ∙ ap (tag v) (append_assoc a (e ∷ []) b)

  tag-snoc :
      (a : Batch) (e : Text × ℕ) (c : List (Text × A))
      → tag v (a ++ e ∷ []) ++ c ≡ tag v a ++ (e.0, v) ∷ c
  tag-snoc a e c =
      ap (λ t. t ++ c) (tag-append a (e ∷ [])) ∙ append_assoc (tag v a) ((e.0, v) ∷ []) c

-- The halfway state of a step's outputs: those of `a` are recorded, those of `b` are not.
abbrev halfway : Bool → ℕ → Batch → Batch → Progress
halfway fin j a b = record {
  generated = tag (j + 1) a ++ tag j b;
  finished = tag fin a ++ tag false b;
}

finished-halfway :
    (fin : Bool) (a b : Batch) (e : Text × ℕ)
    → IsNew e.0 a
    → (if fin
        then set text_discrete e.0 true (tag fin a ++ (e.0, false) ∷ tag false b)
        else tag fin a ++ (e.0, false) ∷ tag false b)
      ≡ tag fin (a ++ e ∷ []) ++ tag false b
finished-halfway true a b e h =
    set-middle true e.0 true false (tag true a) (tag false b) (lookup-tag_new true e.0 a h)
    ∙ sym (tag-snoc true a e (tag false b))
finished-halfway false a b e h = sym (tag-snoc false a e (tag false b))

record_output-halfway :
    (fin : Bool) (j : ℕ) (a b : Batch) (e : Text × ℕ)
    → IsNew e.0 a
    → record_output (out fin e.0) (halfway fin j a (e ∷ b)) ≡ ok (halfway fin j (a ++ e ∷ []) b)
unfolding record_output
record_output-halfway fin j a b e h =
    let counted =
      lookup-middle 0 e.0 j (tag (j + 1) a) (tag j b) (lookup-tag_new (j + 1) e.0 a h) in
    let set_count =
      set-middle 0 e.0 (j + 1) j (tag (j + 1) a) (tag j b) (lookup-tag_new (j + 1) e.0 a h) in
    rw (
      record_output,
      counted,
      set_count,
      finished-halfway fin a b e h,
      tag-snoc (j + 1) a e (tag j b),
    )

pub any_value-tag : (b : Batch) → any_value (tag false b) ≡ false
unfolding any_value
any_value-tag [] = refl
any_value-tag (e ∷ b) = any_value-tag b

pub all_values-tag : (b : Batch) → all_values (tag true b) ≡ true
unfolding all_values
all_values-tag [] = refl
all_values-tag (e ∷ b) = all_values-tag b

-- Nothing is finished in a batch that has not.
is_finished-tag : (b : Batch) (k : Text) → is_finished (tag false b) k ≡ false
unfolding is_finished lookup
is_finished-tag [] k = refl
is_finished-tag (e ∷ b) k = ground (arith, is_finished-tag b k)

pub tokens_of-tag : (j : ℕ) (b : Batch) → All (λ e. tokens_of (tag j b) e.0 ≡ j) b
unfolding tokens_of lookup
tokens_of-tag j [] = tt
tokens_of-tag j (e ∷ b) = (
  ground arith,
  All-map (λ f (h : tokens_of (tag j b) f.0 ≡ j). ground (arith, h)) b (tokens_of-tag j b),
)

-- Of a part `b` of a batch whose counts are those of `w`.
pub live_tokens-live :
    (j : ℕ) (w b : Batch)
    → All (λ e. tokens_of (tag j w) e.0 ≡ j) b
    → live_tokens (progress false j w) (ids b) (lens b) ≡ live j b
unfolding live_tokens
live_tokens-live j w [] h = refl
live_tokens-live j w (e ∷ b) h = rw (is_finished-tag w e.0, h.0, live_tokens-live j w b h.1)

pub active-ids : (j : ℕ) (w b : Batch) → active (progress false j w) (ids b) ≡ ids b
unfolding active filter
active-ids j w [] = refl
active-ids j w (e ∷ b) = rw (is_finished-tag w e.0, active-ids j w b)

pub all_started-tag :
    (j : ℕ) (w b : Batch)
    → All (λ e. tokens_of (tag (suc j) w) e.0 ≡ suc j) b
    → all_started (tag (suc j) w) (ids b) ≡ true
unfolding all_started
all_started-tag j w [] h = refl
all_started-tag j w (e ∷ b) h = ground (arith, h.0, all_started-tag j w b h.1)

record_outputs-halfway :
    (fin : Bool) (j : ℕ) (a b : Batch)
    → IsDistinct (a ++ b)
    → record_outputs (outs fin b) (halfway fin j a b) ≡ ok (halfway fin j (a ++ b) [])
unfolding record_outputs
record_outputs-halfway fin j a [] h = rw (append-nil a)
record_outputs-halfway fin j a (e ∷ b) h =
    rw (record_output-halfway fin j a b e (IsDistinct-front a e b h), record_outputs)
      (record_outputs-halfway fin j (a ++ e ∷ []) b
          (subst IsDistinct (sym (append_assoc a (e ∷ []) b)) h)
        ∙ ap (λ c. ok (halfway fin j c [])) (append_assoc a (e ∷ []) b))

progress_eq :
    {g g' : List (Text × ℕ)} {f f' : List (Text × Bool)}
    → g ≡ g'
    → f ≡ f'
    → ◌≡◌ {A = Progress}
        (record { generated = g; finished = f })
        (record { generated = g'; finished = f' })
progress_eq e k = rw (e, k)

-- A step's outputs take the window's count one step further.
pub record_outputs-progress :
    (fin : Bool) (j : ℕ) (b : Batch)
    → IsDistinct b
    → record_outputs (outs fin b) (progress false j b) ≡ ok (progress fin (j + 1) b)
record_outputs-progress fin j b h =
    record_outputs-halfway fin j [] b h
    ∙ ap ok (progress_eq (append-nil (tag (j + 1) b)) (append-nil (tag fin b)))
