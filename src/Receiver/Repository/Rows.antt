-- ===== src/Receiver/Repository/Rows.antt =====
-- What the searches of receiver/repository.py find.
use mathlib.Core.List.{Memᴰ}
use smokejumper.Prelude.{
  ℕ, ◌≤◌, ◌≡◌, ◌≢◌, ◌⊎◌, refl, Bool, true, false, inl, inr, Bool-cases, Option-cases, All-imp, none,
  some, List, [], ◌∷◌, ◌++◌, arith, All, any, select, ok,
}
use smokejumper.Persistence.{EventRow, Database}
use smokejumper.Persistence.Table.{update_where}
use smokejumper.Contracts.Events.{AgentEvent}
use smokejumper.Receiver.Repository.{
  earliest, has_id, is_candidate, bump, new_row, joined, opened, Admission, insert_event, admit,
}

pub earliest-ne-none : (r : EventRow) (rows : List EventRow) → earliest (r ∷ rows) ≢ none
unfolding earliest
earliest-ne-none r rows = ground arith

earliest-cons :
    (r : EventRow) (rows : List EventRow) (s : EventRow)
    → earliest (r ∷ rows) ≡ some s
    → (s ≡ r) ⊎ (earliest rows ≡ some s)
unfolding earliest
earliest-cons r rows s h = ground arith

module _ (test : EventRow → Bool) where
  -- An empty search: no row passes.
  pub none_of_earliest :
      (rows : List EventRow) → earliest (select test rows) ≡ none → All (λ r. test r ≡ false) rows
  none_of_earliest [] h = tt
  none_of_earliest (r ∷ rows) h = elim (Bool-cases (test r)) [
    | inl passes ↦ absurd (earliest-ne-none r (select test rows) (rw passes at h))
    | inr fails ↦ (fails, none_of_earliest rows (rw fails at h))
  ]

  pub earliest_of_none :
      (rows : List EventRow) → All (λ r. test r ≡ false) rows → earliest (select test rows) ≡ none
  unfolding earliest
  earliest_of_none [] h = refl
  earliest_of_none (r ∷ rows) (fails, h) = rw fails (earliest_of_none rows h)

  -- What a search returns passes and is a row of the table.
  pub earliest-select :
      (rows : List EventRow) (s : EventRow)
      → earliest (select test rows) ≡ some s
      → Memᴰ s rows × (test s ≡ true)
  unfolding earliest
  earliest-select [] s h = cc
  earliest-select (r ∷ rows) s h = elim (Bool-cases (test r)) [
    | inl passes ↦ elim (earliest-cons r (select test rows) s (rw passes at h)) [
      | inl here ↦ (Memᴰ.head here, rw here passes)
      | inr later ↦ let (m, t) = earliest-select rows s later in (Memᴰ.tail m, t)
    ]
    | inr fails ↦ let (m, t) = earliest-select rows s (rw fails at h) in (Memᴰ.tail m, t)
  ]

earliest-cons_le :
    (r m : EventRow) (rows : List EventRow) (s : EventRow)
    → earliest rows ≡ some m
    → earliest (r ∷ rows) ≡ some s
    → (s.received_at ≤ r.received_at) × (s.received_at ≤ m.received_at)
unfolding earliest
earliest-cons_le r m rows s h k = ground arith

-- The earliest row arrived no later than any other.
pub earliest-le :
    (rows : List EventRow) (s : EventRow)
    → earliest rows ≡ some s
    → All (λ r. s.received_at ≤ r.received_at) rows
unfolding earliest
earliest-le [] s h = tt
earliest-le (r ∷ []) s h = (ground arith, tt)
earliest-le (r ∷ r' ∷ rows) s h = elim (Option-cases (earliest (r' ∷ rows))) [
  | inl empty ↦ absurd (earliest-ne-none r' rows empty)
  | inr (m, found) ↦
      let (here, below) = earliest-cons_le r m (r' ∷ rows) s found h in
      (
        here,
        All-imp (λ t. m.received_at ≤ t.received_at) (λ t. s.received_at ≤ t.received_at)
            (λ t k. omega arith) (r' ∷ rows) (earliest-le (r' ∷ rows) m found),
      )
]

-- A successful INSERT appended its row, whose key was free.
pub insert_event-eq-ok :
    (r : EventRow) (db : Database) {a : Unit {0}} {db' : Database}
    → insert_event r db ≡ ok (a, db')
    → (any (has_id r.id) db.events ≡ false) × (db' ≡ record db { events = db.events ++ r ∷ [] })
unfolding insert_event
insert_event-eq-ok r db h = ground arith

-- The two ways in which a delivery is admitted.
pub admit-eq-ok :
    (window : ℕ) (e : AgentEvent) (db : Database) {a : Admission} {db' : Database}
    → admit window e db ≡ ok (a, db')
    → ((r : EventRow) × (earliest (select (is_candidate window e) db.events) ≡ some r)
        × (a ≡ joined e r)
        × (db' ≡ record db { events = update_where (has_id r.id) bump db.events }))
      ⊎ ((earliest (select (is_candidate window e) db.events) ≡ none)
          × (any (has_id e.id) db.events ≡ false)
          × (a ≡ opened e)
          × (db' ≡ record db { events = db.events ++ new_row e ∷ [] }))
unfolding admit
admit-eq-ok window e db h =
    elim (Option-cases (earliest (select (is_candidate window e) db.events))) [
      | inl missed ↦ inr (missed, ground arith, ground arith, ground arith)
      | inr (r, found) ↦ inl (r, found, ground arith, ground arith)
    ]
