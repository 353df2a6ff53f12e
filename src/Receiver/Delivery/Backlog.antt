-- ===== src/Receiver/Delivery/Backlog.antt =====
-- The backlog of receiver/delivery.py: the rows without a receipt, and which of them a turn offers.
use mathlib.Core.List.{Memᴰ}
use mathlib.Core.Bool.{false≢true}
use smokejumper.Prelude.{
  ℕ, suc, ◌≤◌, ◌<◌, ◌≡◌, refl, sym, ap, subst, ◌∙◌, inl, inr, ◌⊎◌, Bool, true, Bool-cases, some,
  List, [], ◌∷◌, map, take, select, Text, arith, All,
}
use smokejumper.Prelude.Sorted.{sorted, sorted-All, sorted-eq-nil}
use smokejumper.Persistence.{EventRow, Database}
use smokejumper.Persistence.Table.{first, update_where, count_where}
use smokejumper.Receiver.Repository.{
  has_id, lacks_receipt, with_receipt, is_pending, row_lt, pending_queue_event_ids,
  pending_queue_count,
}
use smokejumper.Receiver.Repository.Constraints.{IsValidRow}

module _ (event_id now : ℕ) (m : Text) where
  abbrev receipted : List EventRow → List EventRow
  receipted = update_where (lacks_receipt event_id) (with_receipt m now)

  pub receipted-le :
      (rows : List EventRow) → count_where is_pending (receipted rows) ≤ count_where is_pending rows
  unfolding is_pending
  receipted-le [] = omega arith
  receipted-le (r ∷ rows) = ground (arith, receipted-le rows)

  pub receipted-lt :
      (r : EventRow) (rows : List EventRow)
      → Memᴰ r rows
      → is_pending r ≡ true
      → lacks_receipt event_id r ≡ true
      → count_where is_pending (receipted rows) < count_where is_pending rows
  unfolding is_pending
  receipted-lt r (s ∷ rows) (Memᴰ.head e) pending lacks =
      ground (arith, receipted-le rows, ap is_pending e, ap (lacks_receipt event_id) e)
  receipted-lt r (s ∷ rows) (Memᴰ.tail mem) pending lacks =
      ground (arith, receipted-lt r rows mem pending lacks)
  receipted-lt r [] mem pending lacks = elim mem [ ]

pub lacking :
    (event_id : ℕ) (q : EventRow)
    → IsValidRow q
    → is_pending q ≡ true
    → has_id event_id q ≡ true
    → lacks_receipt event_id q ≡ true
unfolding is_pending
lacking event_id q valid pending named = ground (arith, valid.receipt)

pub first-of_mem :
    (p : EventRow → Bool) (r : EventRow) (rows : List EventRow)
    → Memᴰ r rows
    → p r ≡ true
    → (s : EventRow) × (first p rows ≡ some s)
first-of_mem p r [] mem h = elim mem [ ]
first-of_mem p r (s ∷ rows) mem h = elim (Bool-cases (p s)) [
  | inl here ↦ (s, rw here refl)
  | inr other ↦ elim mem [
    | Memᴰ.head e ↦ absurd (false≢true (sym other ∙ subst (λ x. p x ≡ true) e h))
    | Memᴰ.tail m ↦ let (t, found) = first-of_mem p r rows m h in (t, rw other found)
  ]
]

select-All :
    (P : EventRow → Type 0) (p : EventRow → Bool) (rows : List EventRow)
    → ((r : EventRow) → Memᴰ r rows → p r ≡ true → P r)
    → All P (select p rows)
select-All P p [] f = tt
select-All P p (r ∷ rows) f = elim (Bool-cases (p r)) [
  | inl passes ↦
      rw passes (f r (Memᴰ.head refl) passes, select-All P p rows (λ q m. f q (Memᴰ.tail m)))
  | inr fails ↦ rw fails (select-All P p rows (λ q m. f q (Memᴰ.tail m)))
]

count-select :
    (p : EventRow → Bool) (rows : List EventRow) → select p rows ≡ [] → count_where p rows ≡ 0
count-select p [] e = refl
count-select p (r ∷ rows) e = elim (Bool-cases (p r)) [
  | inl passes ↦ cc (rw passes at e)
  | inr fails ↦ rw fails (omega (arith, count-select p rows (rw fails at e)))
]

abbrev Offered : ℕ → Database → Type 0
Offered limit db =
    (pending_queue_count db ≡ 0)
    ⊎ ((r : EventRow) × (ids : List ℕ) × Memᴰ r db.events
        × (is_pending r ≡ true)
        × (pending_queue_event_ids (suc limit) db ≡ r.id ∷ ids))

-- The first id that a turn offers is that of a pending row, if any row is pending.
pub offered : (limit : ℕ) (db : Database) → Offered limit db
unfolding pending_queue_count pending_queue_event_ids
offered limit db = by_order (sorted row_lt (select is_pending db.events)) refl (
    sorted-All row_lt (λ r. Memᴰ r db.events × (is_pending r ≡ true)) (select is_pending db.events)
      (select-All (λ r. Memᴰ r db.events × (is_pending r ≡ true)) is_pending db.events
        (λ r m p. (m, p))))
  where
    by_order :
        (order : List EventRow)
        → sorted row_lt (select is_pending db.events) ≡ order
        → All (λ r. Memᴰ r db.events × (is_pending r ≡ true)) order
        → Offered limit db
    by_order [] e h =
        inl
          (count-select is_pending db.events (sorted-eq-nil row_lt (select is_pending db.events) e))
    by_order (r ∷ order) e ((m, p), _) =
        inr (r, take limit (map (λ (q : EventRow). q.id) order), m, p, rw e refl)
