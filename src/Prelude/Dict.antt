-- ===== src/Prelude/Dict.antt =====
-- Python's `dict` with `str` keys, as its items in their order.
use mathlib.Core.Path.{◌≡◌, refl, sym, subst}
use mathlib.Core.Logic.{inl, inr}
use mathlib.Core.Bool.{false}
use mathlib.Core.Option.{Option, none, some}
use mathlib.Core.List.{List, [], ◌∷◌}
use smokejumper.Prelude.Tests.{if◌then◌else◌, Bool-cases}
use smokejumper.Prelude.Str.{Text, text_eq, text_eq_iff, text_eq_refl}

module _ {A : Type 0} where
  -- `d.get(key)`
  abbrev pub lookup : Text → List (Text × A) → Option A
  lookup key [] = none
  lookup key ((k, v) ∷ rest) = if text_eq k key then some v else lookup key rest

  -- `d[key] = v`: in the place of the key, or at the end.
  abbrev pub store : Text → A → List (Text × A) → List (Text × A)
  store key v [] = (key, v) ∷ []
  store key v ((k, u) ∷ d) =
      let rest = store key v d in if text_eq k key then (k, v) ∷ d else (k, u) ∷ rest

  pub lookup-store_same :
      (key : Text) (v : A) (d : List (Text × A)) → lookup key (store key v d) ≡ some v
  lookup-store_same key v [] = rw (text_eq_refl key) refl
  lookup-store_same key v ((k, u) ∷ d) = elim (Bool-cases (text_eq k key)) [
    | inl same ↦ rw same (rw same refl)
    | inr other ↦ rw other (rw other (lookup-store_same key v d))
  ]

  pub lookup-store_other :
      (key other : Text) (v : A) (d : List (Text × A))
      → text_eq key other ≡ false
      → lookup other (store key v d) ≡ lookup other d
  lookup-store_other key other v [] apart = rw apart refl
  lookup-store_other key other v ((k, u) ∷ d) apart = elim (Bool-cases (text_eq k key)) [
    | inl same ↦
        let here : text_eq k other ≡ false =
          subst (λ x. text_eq x other ≡ false) (sym ((text_eq_iff k key).0 same)) apart in
        rw (same, here) refl
    | inr differs ↦ elim (Bool-cases (text_eq k other)) [
      | inl here ↦ rw (differs, here) refl
      | inr skipped ↦ rw (differs, skipped) (lookup-store_other key other v d apart)
    ]
  ]
