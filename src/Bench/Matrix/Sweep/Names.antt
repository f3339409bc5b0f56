-- ===== src/Bench/Matrix/Sweep/Names.antt =====
-- The names of the results that `pending_cell_specs` collects.
use goodputlab.Prelude.{
  ◌≡◌, refl, sym, ◌∙◌, ap, true, false, ◌||◌, ◌⊎◌, none, some, List, [], ◌∷◌, arith, if◌then◌else◌,
  inl, inr, All-map, is_yes, if_pos, if_neg,
}
use goodputlab.Bench.Matrix.Sweep.{
  CellResult, Stored, corrupt, valid, Directory, is_sidecar, member, existing,
}
use goodputlab.Prelude.Dict
use goodputlab.Prelude.Dict.{Distinct}
use goodputlab.Prelude.Dict.Recent.{lookup_absent}
use goodputlab.Prelude.Float.{FloatOps}
use goodputlab.Prelude.Text.{Text, text_discrete, text_eq}

pub member_self :
    (key name : Text) (names : List Text) → name ≡ key → member key (name ∷ names) ≡ true
unfolding member
member_self key name names e = rw (text_eq name key e) refl

pub member-rest :
    (key name : Text) (names : List Text)
    → member key names ≡ true
    → member key (name ∷ names) ≡ true
unfolding member
member-rest key name names h = ground (arith, h)

member_inv :
    (key name : Text) (names : List Text)
    → member key (name ∷ names) ≡ true
    → (name ≡ key) ⊎ (member key names ≡ true)
unfolding member
member_inv key name names h =
    elim (text_discrete name key)
        as (λ d. (is_yes d || member key names) ≡ true → (name ≡ key) ⊎ (member key names ≡ true)) [
          | yes e ↦ (λ _. inl e)
          | no _ ↦ inr
        ]
      h

module _ (fl : FloatOps) where
  existing-valid :
      (stem : Text) (q : CellResult fl) (files : Directory fl)
      → existing fl ((stem, valid q) ∷ files) ≡ (
          if is_sidecar stem
          then existing fl files
          else if is_yes (text_discrete q.id stem)
          then q.id ∷ existing fl files
          else existing fl files)
  unfolding existing
  existing-valid stem q files = refl

  existing-corrupt :
      (stem : Text) (files : Directory fl)
      → existing fl ((stem, corrupt) ∷ files) ≡ existing fl files
  unfolding existing
  existing-corrupt stem files = refl

  -- A result under its own name is among the existing ones.
  pub member-existing :
      (k : Text) (r : CellResult fl) (files : Directory fl)
      → is_sidecar k ≡ false
      → r.id ≡ k
      → Dict.lookup text_discrete k files ≡ some (valid r)
      → member k (existing fl files) ≡ true
  unfolding Dict.lookup
  member-existing k r [] plain named e = cc
  member-existing k r ((stem, corrupt) ∷ files) plain named e = elim (text_discrete stem k) [
    | yes same ↦ let here = sym (if_pos (text_discrete stem k) same _ _) ∙ e in cc
    | no ne ↦
        rw (existing-corrupt stem files)
          (member-existing k r files plain named (sym (if_neg (text_discrete stem k) ne _ _) ∙ e))
  ]
  member-existing k r ((stem, valid q) ∷ files) plain named e = elim (text_discrete stem k) [
    | yes same ↦
        let here = sym (if_pos (text_discrete stem k) same _ _) ∙ e in
        let result : q ≡ r = cc here in
        let id : q.id ≡ k = ap (λ (v : CellResult fl). v.id) result ∙ named in
        rw
          (
            existing-valid stem q files,
            ap is_sidecar same ∙ plain,
            text_eq q.id stem (id ∙ sym same),
          )
          (member_self k q.id (existing fl files) id)
    | no ne ↦
        let rest =
          member-existing k r files plain named (sym (if_neg (text_discrete stem k) ne _ _) ∙ e) in
        rw (existing-valid stem q files)
          (elim (is_sidecar stem)
            as (λ a.
              member k (
                if a
                then existing fl files
                else if is_yes (text_discrete q.id stem)
                then q.id ∷ existing fl files
                else existing fl files)
              ≡ true) [
                | true ↦ rest
                | false ↦
                    elim (is_yes (text_discrete q.id stem))
                      as (λ a.
                        member k (if a then q.id ∷ existing fl files else existing fl files)
                        ≡ true) [
                          | true ↦ member-rest k q.id (existing fl files) rest
                          | false ↦ rest
                        ]
              ])
  ]

  -- The files behind the first have no file of its name.
  absent-behind :
      (stem : Text) (v : Stored fl) (files : Directory fl)
      → Distinct ((stem, v) ∷ files)
      → Dict.lookup text_discrete stem files ≡ none
  absent-behind stem v files d =
      lookup_absent text_discrete stem files (All-map (λ e ne same. ne (sym same)) files d.0)

  abbrev Found : Text → Directory fl → Type 0
  Found k files = (r : CellResult fl) × (Dict.lookup text_discrete k files ≡ some (valid r))

  Found-behind :
      (k stem : Text) (v : Stored fl) (files : Directory fl)
      → Distinct ((stem, v) ∷ files)
      → Found k files
      → Found k ((stem, v) ∷ files)
  unfolding Dict.lookup
  Found-behind k stem v files d (r, e) = elim (text_discrete stem k) [
    | yes same ↦
        let gone =
          sym (ap (λ i. Dict.lookup text_discrete i files) same) ∙ absent-behind stem v files d in
        (r, cc)
    | no ne ↦ (r, if_neg (text_discrete stem k) ne _ _ ∙ e)
  ]

  member-existing_inv :
      (k stem : Text) (q : CellResult fl) (files : Directory fl)
      → member k (existing fl ((stem, valid q) ∷ files)) ≡ true
      → (stem ≡ k) ⊎ (member k (existing fl files) ≡ true)
  member-existing_inv k stem q files h =
      let names = existing fl files in
      elim (is_sidecar stem)
          as (λ a.
            member k (
                if a
                then names
                else if is_yes (text_discrete q.id stem)
                then q.id ∷ names
                else names)
              ≡ true
            → (stem ≡ k) ⊎ (member k names ≡ true)) [
              | true ↦ inr
              | false ↦
                  elim (text_discrete q.id stem)
                    as (λ d.
                      member k (if is_yes d then q.id ∷ names else names) ≡ true
                      → (stem ≡ k) ⊎ (member k names ≡ true)) [
                        | yes own ↦ (λ more. elim (member_inv k q.id names more) [
                          | inl id ↦ inl (sym own ∙ id)
                          | inr rest ↦ inr rest
                        ])
                        | no _ ↦ inr
                      ]
            ]
        (sym (ap (λ s. member k s) (existing-valid stem q files)) ∙ h)

  none_listed : {A : Type 0} (k : Text) → member k [] ≡ true → A
  unfolding member
  none_listed k h = cc

  -- An existing result is one that a file holds under this name.
  pub Found-existing :
      (k : Text) (files : Directory fl)
      → Distinct files
      → member k (existing fl files) ≡ true
      → Found k files
  unfolding existing Dict.lookup
  Found-existing k [] d h = none_listed k h
  Found-existing k ((stem, corrupt) ∷ files) d h =
      Found-behind k stem corrupt files d (Found-existing k files d.1 h)
  Found-existing k ((stem, valid q) ∷ files) d h = elim (member-existing_inv k stem q files h) [
    | inl same ↦ (q, if_pos (text_discrete stem k) same _ _)
    | inr more ↦ Found-behind k stem (valid q) files d (Found-existing k files d.1 more)
  ]
