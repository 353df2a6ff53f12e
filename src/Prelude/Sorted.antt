-- ===== src/Prelude/Sorted.antt =====
-- Python's `sorted` for a strict total order: a stable insertion sort, which depends on the
-- elements and how often they stand in the list, and not on their order.
use mathlib.Core.Path.{◌≡◌, refl, sym, subst, ◌∙◌}
use mathlib.Core.Logic.{◌≢◌, ◌↔◌, inl, inr, ∥∥₁_elim}
use mathlib.Core.Bool.{Bool, true, false}
use mathlib.Core.List.{List, [], ◌∷◌, Perm, Permᴰ}
use mathlib.Core.List.Perm
use native.Mathlib.Omega.{arith}
use smokejumper.Prelude.Lists.{All}
use smokejumper.Prelude.Tests.{if◌then◌else◌, Bool-cases}

-- The laws of a strict total order, given by its Boolean test.
pub record IsStrictOrder {ℓ} {A : Type ℓ} (lt : A → A → Bool) : Type ℓ where
  pub asym : (a b : A) → lt a b ≡ true → lt b a ≡ false
  pub trans : (a b c : A) → lt a b ≡ true → lt b c ≡ true → lt a c ≡ true
  pub same : (a b : A) → lt a b ≡ false → lt b a ≡ false → a ≡ b

module _ {ℓ} {A : Type ℓ} (lt : A → A → Bool) where
  unfoldable pub place : A → List A → List A
  place a [] = a ∷ []
  place a (b ∷ l) = let rest = place a l in if lt b a then b ∷ rest else a ∷ b ∷ l

  unfoldable pub sorted : List A → List A
  unfolding place
  sorted [] = []
  sorted (a ∷ l) = place a (sorted l)

  place-perm : (a : A) (l : List A) → Perm (place a l) (a ∷ l)
  unfolding place
  place-perm a [] = Perm.refl (a ∷ [])
  place-perm a (b ∷ l) = elim (Bool-cases (lt b a)) [
    | inl below ↦ rw below (Perm.trans (Perm.cons b (place-perm a l)) (Perm.swap a b l))
    | inr above ↦ rw above (Perm.refl (a ∷ b ∷ l))
  ]

  pub sorted-perm : (l : List A) → Perm (sorted l) l
  unfolding sorted
  sorted-perm [] = Perm.refl []
  sorted-perm (a ∷ l) = Perm.trans (place-perm a (sorted l)) (Perm.cons a (sorted-perm l))

  place-All : (P : A → Type 0) (a : A) (l : List A) → P a → All P l → All P (place a l)
  unfolding place
  place-All P a [] h hs = (h, tt)
  place-All P a (b ∷ l) h (k, ks) = elim (Bool-cases (lt b a)) [
    | inl below ↦ rw below (k, place-All P a l h ks)
    | inr above ↦ rw above (h, (k, ks))
  ]

  pub sorted-All : (P : A → Type 0) (l : List A) → All P l → All P (sorted l)
  unfolding sorted
  sorted-All P [] h = tt
  sorted-All P (a ∷ l) (h, hs) = place-All P a (sorted l) h (sorted-All P l hs)

  place-All_of : (P : A → Type 0) (a : A) (l : List A) → All P (place a l) → P a × All P l
  unfolding place
  place-All_of P a [] h = h
  place-All_of P a (b ∷ l) h = elim (Bool-cases (lt b a)) [
    | inl below ↦
        let (k, ks) = rw below at h in let (here, rest) = place-All_of P a l ks in (here, (k, rest))
    | inr above ↦ rw above at h
  ]

  pub sorted-All_of : (P : A → Type 0) (l : List A) → All P (sorted l) → All P l
  unfolding sorted
  sorted-All_of P [] h = tt
  sorted-All_of P (a ∷ l) h =
      let (here, rest) = place-All_of P a (sorted l) h in (here, sorted-All_of P l rest)

  pub place-ne-nil : (a : A) (l : List A) → place a l ≢ []
  unfolding place
  place-ne-nil a [] e = cc e
  place-ne-nil a (b ∷ l) e = elim (Bool-cases (lt b a)) [
    | inl below ↦ cc (rw (below, place) at e)
    | inr above ↦ cc (rw (above, place) at e)
  ]

  pub sorted-eq-nil : (l : List A) → sorted l ≡ [] → l ≡ []
  unfolding sorted
  sorted-eq-nil [] e = refl
  sorted-eq-nil (a ∷ l) e = absurd (place-ne-nil a (sorted l) e)

  module _ (order : IsStrictOrder lt) where
    place_comm : (a b : A) (l : List A) → place a (place b l) ≡ place b (place a l)
    unfolding place
    place_comm a b [] = ground (arith, order.asym a b, order.asym b a, order.same a b)
    place_comm a b (c ∷ l) = ground (
      arith,
      order.asym a b,
      order.asym b a,
      order.same a b,
      order.trans c a b,
      order.trans c b a,
      place_comm a b l,
    )

    sorted_of_permᴰ : {l m : List A} → Permᴰ l m → sorted l ≡ sorted m
    unfolding sorted
    sorted_of_permᴰ Permᴰ.nil = refl
    sorted_of_permᴰ (Permᴰ.cons e p) = cc (e, sorted_of_permᴰ p)
    sorted_of_permᴰ (Permᴰ.swap {a} {b} {a' = c} {b' = d} {l} p q) =
        rw (p, q) (place_comm d c (sorted l))
    sorted_of_permᴰ (Permᴰ.trans p q) = sorted_of_permᴰ p ∙ sorted_of_permᴰ q

    -- Sorting forgets exactly the order.
    pub sorted-eq_iff : (set : IsSet (List A)) (l m : List A) → (sorted l ≡ sorted m) ↔ Perm l m
    sorted-eq_iff set l m = (
      λ e. Perm.trans (Perm.symm (sorted-perm l)) (subst (λ k. Perm k m) (sym e) (sorted-perm m)),
      λ p. ∥∥₁_elim p (set (sorted l) (sorted m)) sorted_of_permᴰ,
    )
