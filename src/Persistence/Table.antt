-- ===== src/Persistence/Table.antt =====
-- SELECT and UPDATE over a table as a list of rows, and the laws of an update by key.
use mathlib.Core.List.{Memᴰ}
use mathlib.Core.Option.{some-injective}
use smokejumper.Prelude.{
  ℕ, ◌+◌, ◌≡◌, refl, sym, subst, inl, inr, Bool-cases, Bool, true, Option, none, some, List, [],
  ◌∷◌, arith, if◌then◌else◌, All, any,
}

module _ {ℓ} {Row : Type ℓ} where
  -- `UPDATE … SET … WHERE`
  abbrev pub update_where : (Row → Bool) → (Row → Row) → List Row → List Row
  update_where test set [] = []
  update_where test set (r ∷ rows) = (if test r then set r else r) ∷ update_where test set rows

  -- The first row that passes: `SELECT … WHERE` by a key.
  abbrev pub first : (Row → Bool) → List Row → Option Row
  first test [] = none
  first test (r ∷ rows) = let rest = first test rows in if test r then some r else rest

  -- `SELECT count(*) … WHERE`, and an UPDATE's row count.
  abbrev pub count_where : (Row → Bool) → List Row → ℕ
  count_where test [] = 0
  count_where test (r ∷ rows) = (if test r then 1 else 0) + count_where test rows

module _ {ℓ} {Row : Type ℓ} (p test : Row → Bool) (set : Row → Row) where
  -- An update that keeps a column keeps what can be asked of it.
  pub any-update_where :
      ((r : Row) → p (set r) ≡ p r)
      → (rows : List Row) → any p (update_where test set rows) ≡ any p rows
  any-update_where same [] = refl
  any-update_where same (r ∷ rows) = ground (arith, same r, any-update_where same rows)

  pub count-update_where :
      ((r : Row) → p (set r) ≡ p r)
      → (rows : List Row) → count_where p (update_where test set rows) ≡ count_where p rows
  count-update_where same [] = refl
  count-update_where same (r ∷ rows) = ground (arith, same r, count-update_where same rows)

module _ {ℓ} {Row : Type ℓ} where
  -- A fact of every row after an update, from facts of every row before it.
  pub All-update_where {κ μ} :
      (P : Row → Type κ) (Q : Row → Type μ) (test : Row → Bool) (set : Row → Row)
      → ((r : Row) → P r → Q (if test r then set r else r))
      → (rows : List Row) → All P rows
      → All Q (update_where test set rows)
  All-update_where P Q test set step [] h = tt
  All-update_where P Q test set step (r ∷ rows) (h, hs) =
      (step r h, All-update_where P Q test set step rows hs)

  -- What `first` finds passes, and is a row of the table.
  pub first-mem :
      (test : Row → Bool) (rows : List Row) (r : Row)
      → first test rows ≡ some r
      → Memᴰ r rows × (test r ≡ true)
  first-mem test [] r h = cc
  first-mem test (s ∷ rows) r h = elim (Bool-cases (test s)) [
    | inl passes ↦
        let same : s ≡ r = some-injective _ _ (rw passes at h) in
        (Memᴰ.head (sym same), subst (λ x. test x ≡ true) same passes)
    | inr fails ↦ let (m, t) = first-mem test rows r (rw fails at h) in (Memᴰ.tail m, t)
  ]

  pub first-update_where :
      (p test : Row → Bool) (set : Row → Row)
      → ((r : Row) → p (set r) ≡ p r)
      → (rows : List Row)
      → first p (update_where test set rows)
        ≡ (elim (first p rows) [ none ↦ none | some r ↦ some (if test r then set r else r) ])
  first-update_where p test set same [] = refl
  first-update_where p test set same (r ∷ rows) =
      ground (arith, same r, first-update_where p test set same rows)
