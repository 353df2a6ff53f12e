-- ===== src/Prelude/Lists.antt =====
-- Lists measured by native numbers, under the library's names, and predicates over lists.
use Prim.Native.Nat.{ℕ, zero, suc, ◌+◌}
use mathlib.Core.Path.{◌≡◌, refl, sym, subst}
use mathlib.Core.Logic.{◌↔◌, inl, inr}
use mathlib.Core.Bool.{Bool, true, false, ◌&&◌, ◌||◌}
use mathlib.Core.List.{List, [], ◌∷◌, ◌++◌, Memᴰ}
use native.Mathlib.Omega.{arith}
use smokejumper.Prelude.Tests.{if◌then◌else◌, Bool-cases}

module _ {ℓ} {A : Type ℓ} where
  abbrev pub length : List A → ℕ
  length [] = 0
  length (x ∷ xs) = suc (length xs)

  abbrev pub take : ℕ → List A → List A
  take zero xs = []
  take (suc n) [] = []
  take (suc n) (x ∷ xs) = x ∷ take n xs

  -- A comprehension's `if`. One structural call.
  abbrev pub select : (A → Bool) → List A → List A
  select p [] = []
  select p (x ∷ xs) = let rest = select p xs in if p x then x ∷ rest else rest

  abbrev pub any : (A → Bool) → List A → Bool
  any p [] = false
  any p (x ∷ xs) = p x || any p xs

  abbrev pub all : (A → Bool) → List A → Bool
  all p [] = true
  all p (x ∷ xs) = p x && all p xs

  -- A predicate of every element computes to a tuple.
  abbrev pub All {κ} : (A → Type κ) → List A → Type κ
  All P [] = Unit
  All P (x ∷ xs) = P x × All P xs

  pub length-append : (xs ys : List A) → length (xs ++ ys) ≡ length xs + length ys
  length-append [] ys = omega arith
  length-append (x ∷ xs) ys = omega (arith, length-append xs ys)

module _ {ℓ} {A : Type ℓ} where
  pub All-append {κ} : (P : A → Type κ) (xs ys : List A) → All P xs → All P ys → All P (xs ++ ys)
  All-append P [] ys front back = back
  All-append P (x ∷ xs) ys (here, front) back = (here, All-append P xs ys front back)

  pub All-imp {κ μ} :
      (P : A → Type κ) (Q : A → Type μ) (f : (x : A) → P x → Q x) (xs : List A)
      → All P xs
      → All Q xs
  All-imp P Q f [] h = tt
  All-imp P Q f (x ∷ xs) (h, hs) = (f x h, All-imp P Q f xs hs)

  pub All-of_All {κ} : (P : A → Type κ) (f : (x : A) → P x) (xs : List A) → All P xs
  All-of_All P f [] = tt
  All-of_All P f (x ∷ xs) = (f x, All-of_All P f xs)

  pub All-mem {κ} : (P : A → Type κ) {x : A} (xs : List A) → All P xs → Memᴰ x xs → P x
  All-mem P (y ∷ ys) (h, hs) (Memᴰ.head e) = subst P (sym e) h
  All-mem P (y ∷ ys) (h, hs) (Memᴰ.tail m) = All-mem P ys hs m
  All-mem P [] h m = elim m [ ]

  pub any_of_mem : (p : A → Bool) {x : A} (xs : List A) → Memᴰ x xs → p x ≡ true → any p xs ≡ true
  any_of_mem p (y ∷ ys) (Memᴰ.head e) h = ground (arith, subst (λ z. p z ≡ true) e h)
  any_of_mem p (y ∷ ys) (Memᴰ.tail m) h = ground (arith, any_of_mem p ys m h)
  any_of_mem p [] m h = elim m [ ]

  pub any_of_All : (p : A → Bool) (xs : List A) → All (λ x. p x ≡ false) xs → any p xs ≡ false
  any_of_All p [] h = refl
  any_of_All p (x ∷ xs) (h, hs) = ground (arith, any_of_All p xs hs)

  pub any-append : (p : A → Bool) (xs ys : List A) → any p (xs ++ ys) ≡ (any p xs || any p ys)
  any-append p [] ys = refl
  any-append p (x ∷ xs) ys = ground (arith, any-append p xs ys)

  pub All-and {κ μ} :
      (P : A → Type κ) (Q : A → Type μ) (xs : List A)
      → All P xs
      → All Q xs
      → All (λ x. P x × Q x) xs
  All-and P Q [] h k = tt
  All-and P Q (x ∷ xs) (h, hs) (k, ks) = ((h, k), All-and P Q xs hs ks)

pub select-eq-nil :
    {A : Type 0} (p : A → Bool) (xs : List A) → (select p xs ≡ []) ↔ All (λ x. p x ≡ false) xs
select-eq-nil p [] = (λ e. tt, λ h. refl)
select-eq-nil p (x ∷ xs) = elim (Bool-cases (p x)) [
  | inl passes ↦ rw passes (λ e. cc e, λ h. cc h.0)
  | inr fails ↦ rw fails (λ e. (refl, (select-eq-nil p xs).0 e), λ h. (select-eq-nil p xs).1 h.1)
]

pub All-select :
    {A : Type 0} (P : A → Type 0) (p : A → Bool) (xs : List A) → All P xs → All P (select p xs)
All-select P p [] h = tt
All-select P p (x ∷ xs) (h, hs) = elim (Bool-cases (p x)) [
  | inl passes ↦ rw passes (h, All-select P p xs hs)
  | inr fails ↦ rw fails (All-select P p xs hs)
]

-- What passes a test, and is a row.
pub mem-select :
    {A : Type 0} (p : A → Bool) (a : A) (rows : List A)
    → Memᴰ a (select p rows)
    → Memᴰ a rows × (p a ≡ true)
mem-select p a [] m = elim m [ ]
mem-select p a (b ∷ rows) m = elim (Bool-cases (p b)) [
  | inr fails ↦ let (n, passes) = mem-select p a rows (rw fails at m) in (Memᴰ.tail n, passes)
  | inl passes ↦ elim (rw passes at m) [
    | Memᴰ.head e ↦ (Memᴰ.head e, subst (λ x. p x ≡ true) (sym e) passes)
    | Memᴰ.tail n ↦ let (n', held) = mem-select p a rows n in (Memᴰ.tail n', held)
  ]
]

pub All-select-imp :
    {A : Type 0} (p : A → Bool) (P : A → Type 0) (rows : List A)
    → All P (select p rows)
    → All (λ a. p a ≡ true → P a) rows
All-select-imp p P [] h = tt
All-select-imp p P (a ∷ rows) h = elim (Bool-cases (p a)) [
  | inl passes ↦ let (here, rest) = rw passes at h in (λ _. here, All-select-imp p P rows rest)
  | inr fails ↦ (λ held. cc (fails, held), All-select-imp p P rows (rw fails at h))
]

pub All-imp_select :
    {A : Type 0} (p : A → Bool) (P : A → Type 0) (rows : List A)
    → All (λ a. p a ≡ true → P a) rows
    → All P (select p rows)
All-imp_select p P [] h = tt
All-imp_select p P (a ∷ rows) (here, rest) = elim (Bool-cases (p a)) [
  | inl passes ↦ rw passes (here passes, All-imp_select p P rows rest)
  | inr fails ↦ rw fails (All-imp_select p P rows rest)
]
