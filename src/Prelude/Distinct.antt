-- ===== src/Prelude/Distinct.antt =====
-- `sorted(set(l))` for a strict total order: insertion that leaves an element out which is there.
use mathlib.Core.Path.{◌≡◌, refl, ap, ◌∙◌}
use mathlib.Core.Logic.{∥∥₁_elim}
use mathlib.Core.Bool.{Bool, false}
use mathlib.Core.List.{List, [], ◌∷◌, Perm, Permᴰ, Memᴰ}
use native.Mathlib.Omega.{arith}
use smokejumper.Prelude.Tests.{if◌then◌else◌}
use smokejumper.Prelude.Sorted.{IsStrictOrder}

module _ {ℓ} {A : Type ℓ} (lt : A → A → Bool) where
  unfoldable pub place_once : A → List A → List A
  place_once a [] = a ∷ []
  place_once a (b ∷ l) =
      let rest = place_once a l in if lt a b then a ∷ b ∷ l else if lt b a then b ∷ rest else b ∷ l

  unfoldable pub distinct : List A → List A
  unfolding place_once
  distinct [] = []
  distinct (a ∷ l) = place_once a (distinct l)

module _ {ℓ} {A : Type ℓ} (lt : A → A → Bool) (order : IsStrictOrder lt) where
  irrefl : (a : A) → lt a a ≡ false
  irrefl a = ground (arith, order.asym a a)

  place_once_idempotent :
      (a : A) (l : List A) → place_once lt a (place_once lt a l) ≡ place_once lt a l
  unfolding place_once
  place_once_idempotent a [] = rw (irrefl a) refl
  place_once_idempotent a (b ∷ l) =
      ground (arith, irrefl a, order.asym a b, place_once_idempotent a l)

  place_once_comm :
      (a b : A) (l : List A)
      → place_once lt a (place_once lt b l) ≡ place_once lt b (place_once lt a l)
  unfolding place_once
  place_once_comm a b [] = ground (arith, order.asym a b, order.asym b a, order.same a b)
  place_once_comm a b (c ∷ l) = ground (
    arith,
    order.asym a b,
    order.asym b a,
    order.same a b,
    order.asym a c,
    order.asym b c,
    order.same a c,
    order.same b c,
    order.trans a b c,
    order.trans b a c,
    order.trans c a b,
    order.trans c b a,
    order.trans a c b,
    order.trans b c a,
    place_once_comm a b l,
  )

  distinct_of_permᴰ : {l m : List A} → Permᴰ l m → distinct lt l ≡ distinct lt m
  unfolding distinct
  distinct_of_permᴰ Permᴰ.nil = refl
  distinct_of_permᴰ (Permᴰ.cons e p) = cc (e, distinct_of_permᴰ p)
  distinct_of_permᴰ (Permᴰ.swap {a} {b} {a' = c} {b' = d} {l} p q) =
      rw (p, q) (place_once_comm d c (distinct lt l))
  distinct_of_permᴰ (Permᴰ.trans p q) = distinct_of_permᴰ p ∙ distinct_of_permᴰ q

  pub distinct-perm :
      (set : IsSet (List A)) (l m : List A) → Perm l m → distinct lt l ≡ distinct lt m
  distinct-perm set l m p = ∥∥₁_elim p (set (distinct lt l) (distinct lt m)) distinct_of_permᴰ

  -- What is there already changes nothing.
  pub distinct_repeat : {a : A} (l : List A) → Memᴰ a l → distinct lt (a ∷ l) ≡ distinct lt l
  unfolding distinct
  distinct_repeat [] m = elim m [ ]
  distinct_repeat {a} (b ∷ l) (Memᴰ.head e) = rw e (place_once_idempotent b (distinct lt l))
  distinct_repeat {a} (b ∷ l) (Memᴰ.tail m) =
      place_once_comm a b (distinct lt l) ∙ ap (place_once lt b) (distinct_repeat l m)
