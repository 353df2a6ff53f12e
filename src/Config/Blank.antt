-- ===== src/Config/Blank.antt =====
-- src/smokejumper/config.py: which credentials `_present` accepts.
use mathlib.Core.List.{reverse, reverse_aux}
use mathlib.Core.Option.{some-injective}
use smokejumper.Prelude.{
  ℕ, ◌≡◌, refl, sym, ◌∙◌, inl, inr, ◌↔◌, ◌⊎◌, Bool, true, false, ◌&&◌, Option, none, some, [], ◌∷◌,
  Text, arith, is_empty, is_space, lstrip, strip, all, Bool-cases,
}
use smokejumper.Config.Boot.{present}

is_empty-lstrip : (s : Text) → is_empty (lstrip s) ≡ all is_space s
unfolding lstrip
is_empty-lstrip [] = refl
is_empty-lstrip (c ∷ s) = elim (Bool-cases (is_space c)) [
  | inl blank ↦ rw (blank, lstrip) (is_empty-lstrip s)
  | inr ink ↦ rw (ink, lstrip) refl
]

all-lstrip : (s : Text) → all is_space (lstrip s) ≡ all is_space s
unfolding lstrip
all-lstrip [] = refl
all-lstrip (c ∷ s) = elim (Bool-cases (is_space c)) [
  | inl blank ↦ rw (blank, lstrip) (all-lstrip s)
  | inr ink ↦ rw (ink, lstrip) (rw ink refl)
]

all-reverse_aux : (p : ℕ → Bool) (s acc : Text) → all p (reverse_aux s acc) ≡ (all p s && all p acc)
all-reverse_aux p [] acc = refl
all-reverse_aux p (c ∷ s) acc = ground (arith, all-reverse_aux p s (c ∷ acc))

is_empty-reverse_aux : (s acc : Text) → is_empty (reverse_aux s acc) ≡ (is_empty s && is_empty acc)
is_empty-reverse_aux [] acc = refl
is_empty-reverse_aux (c ∷ s) acc = is_empty-reverse_aux s (c ∷ acc) ∙ and_false (is_empty s)
  where
    and_false : (b : Bool) → (b && false) ≡ false
    and_false true = refl
    and_false false = refl

is_empty-strip : (s : Text) → is_empty (strip s) ≡ all is_space s
unfolding strip
is_empty-strip s =
    is_empty-reverse_aux (lstrip (reverse (lstrip s))) []
    ∙ ground (
      arith,
      is_empty-lstrip (reverse (lstrip s)),
      all-reverse_aux is_space (lstrip s) [],
      all-lstrip s,
    )

-- A credential counts as missing exactly where it is not set, or all of it is white space.
present-eq-false_iff :
    (value : Option Text)
    → (present value ≡ false)
      ↔ ((value ≡ none) ⊎ ((t : Text) × (value ≡ some t) × (all is_space t ≡ true)))
unfolding present
present-eq-false_iff none = (λ e. inl refl, λ h. refl)
present-eq-false_iff (some value) = (
  λ e. inr (value, refl, sym (is_empty-strip value) ∙ ground arith),
  λ h. elim h [
    | inl unset ↦ cc unset
    | inr (t, same, blank) ↦
        let here : all is_space value ≡ true = rw (some-injective _ _ same) blank in
        rw (is_empty-strip value, here) refl
  ],
)
