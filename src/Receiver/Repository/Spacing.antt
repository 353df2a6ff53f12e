-- ===== src/Receiver/Repository/Spacing.antt =====
-- The dedupe window: of one fingerprint, two events whose windows are open were admitted at least a
-- window apart. The statements are those of receiver/repository.py.
use smokejumper.Prelude.{
  ℕ, ◌+◌, ◌≤◌, ◌≡◌, refl, Bool, true, false, List, [], ◌∷◌, ◌++◌, arith, inl, inr, All, All-append,
  All-imp, All-of_All, Text, text_eq_iff, ok, if◌then◌else◌,
}
use smokejumper.Contracts.Events.{EventSource, AgentEvent}
use smokejumper.Persistence.{EventRow, Database}
use smokejumper.Persistence.Table.{update_where}
use smokejumper.Receiver.Repository.{
  is_open, is_recent, is_candidate, has_id, bump, new_row, insert_event, admit, Admission,
  quarantine, quarantine_row, mark_queued, lacks_receipt, with_receipt, shut_window, close_window,
}
use smokejumper.Receiver.Repository.Rows.{none_of_earliest, insert_event-eq-ok, admit-eq-ok}

-- `s` was admitted later than `r`: if both windows of a fingerprint are open, a window lies between.
abbrev pub Apart : ℕ → EventRow → EventRow → Type 0
Apart window r s =
    (f : Text) → is_open f r ≡ true → is_open f s ≡ true → r.received_at + window ≤ s.received_at

abbrev pub IsSpaced : ℕ → List EventRow → Type 0
IsSpaced window [] = Unit
IsSpaced window (r ∷ rows) = All (Apart window r) rows × IsSpaced window rows

-- A change of rows that keeps arrival times and opens no window.
pub record Keeps (set : EventRow → EventRow) : Type 0 where
  pub arrival : (r : EventRow) → (set r).received_at ≡ r.received_at
  pub opens_none : (f : Text) (r : EventRow) → is_open f (set r) ≡ true → is_open f r ≡ true

module _ (window : ℕ) (test : EventRow → Bool) (set : EventRow → EventRow) (keeps : Keeps set) where
  kept :
      (r : EventRow) (f : Text)
      → is_open f (if test r then set r else r) ≡ true
      → is_open f r ≡ true
  kept r f h = ground (arith, keeps.opens_none f r)

  kept_arrival : (r : EventRow) → (if test r then set r else r).received_at ≡ r.received_at
  kept_arrival r = ground (arith, keeps.arrival r)

  Apart-update :
      (r : EventRow) (rows : List EventRow)
      → All (Apart window r) rows
      → All (Apart window (if test r then set r else r)) (update_where test set rows)
  Apart-update r [] h = tt
  Apart-update r (s ∷ rows) (h, hs) = (
    λ f open_r open_s.
        rw (kept_arrival r, kept_arrival s) (h f (kept r f open_r) (kept s f open_s)),
    Apart-update r rows hs,
  )

  pub IsSpaced-update_where :
      (rows : List EventRow) → IsSpaced window rows → IsSpaced window (update_where test set rows)
  IsSpaced-update_where [] h = tt
  IsSpaced-update_where (r ∷ rows) (h, hs) = (Apart-update r rows h, IsSpaced-update_where rows hs)

IsSpaced-append :
    (window : ℕ) (rows : List EventRow) (s : EventRow)
    → IsSpaced window rows
    → All (λ r. Apart window r s) rows
    → IsSpaced window (rows ++ s ∷ [])
IsSpaced-append window [] s h k = (tt, tt)
IsSpaced-append window (r ∷ rows) s (h, hs) (k, ks) =
    (All-append (Apart window r) rows (s ∷ []) h (k, tt), IsSpaced-append window rows s hs ks)

-- A row that is no candidate for a delivery is a window away from the row that the delivery makes.
Apart-new_row :
    (window : ℕ) (e : AgentEvent) (r : EventRow)
    → is_candidate window e r ≡ false
    → Apart window r (new_row e)
unfolding is_open is_recent
Apart-new_row window e r h f open_r open_e = ground (arith, text_eq_iff e.fingerprint f)

Keeps-bump : Keeps bump
unfolding is_open
Keeps-bump = record { arrival = λ r. refl; opens_none = λ f r h. h }

insert-IsSpaced :
    (window : ℕ) (r : EventRow) (db db' : Database)
    → IsSpaced window db.events
    → All (λ s. Apart window s r) db.events
    → insert_event r db ≡ ok (tt, db')
    → IsSpaced window db'.events
insert-IsSpaced window r db db' h k e =
    let (_, same) = insert_event-eq-ok r db e in rw same (IsSpaced-append window db.events r h k)

-- If the open events of each fingerprint arrived in order and at least the window apart, they
-- still do after a delivery is admitted.
pub admit-IsSpaced :
    (window : ℕ) (e : AgentEvent) (db : Database) {a : Admission} {db' : Database}
    → IsSpaced window db.events
    → admit window e db ≡ ok (a, db')
    → IsSpaced window db'.events
admit-IsSpaced window e db h k = elim (admit-eq-ok window e db k) [
  | inl (r, found, _, same) ↦
      rw same (IsSpaced-update_where window (has_id r.id) bump Keeps-bump db.events h)
  | inr (missed, _, _, same) ↦ rw same (
      IsSpaced-append window db.events (new_row e) h (
        All-imp (λ r. is_candidate window e r ≡ false) (λ r. Apart window r (new_row e))
          (Apart-new_row window e) db.events
          (none_of_earliest (is_candidate window e) db.events missed)))
]

-- A quarantined row has no window.
Apart-quarantine_row :
    (window id at : ℕ) (source : EventSource) (reason : Text) (r : EventRow)
    → Apart window r (quarantine_row id source at reason)
unfolding is_open
Apart-quarantine_row window id at source reason r f open_r shut = cc

pub quarantine-IsSpaced :
    (window id at : ℕ) (source : EventSource) (reason : Text) (db : Database) {db' : Database}
    → IsSpaced window db.events
    → quarantine id source at reason db ≡ ok (tt, db')
    → IsSpaced window db'.events
unfolding quarantine
quarantine-IsSpaced window id at source reason db {db'} h k =
    let row = quarantine_row id source at reason in
    insert-IsSpaced window row db db' h
      (All-of_All (λ r. Apart window r row) (Apart-quarantine_row window id at source reason)
        db.events)
      k

Keeps-with_receipt : (m : Text) (at : ℕ) → Keeps (with_receipt m at)
unfolding is_open
Keeps-with_receipt m at = record { arrival = λ r. refl; opens_none = λ f r k. k }

pub mark_queued-IsSpaced :
    (window id at : ℕ) (m : Text) (db : Database)
    → IsSpaced window db.events
    → IsSpaced window (mark_queued id m at db).events
unfolding mark_queued
mark_queued-IsSpaced window id at m db h =
    IsSpaced-update_where window (lacks_receipt id) (with_receipt m at) (Keeps-with_receipt m at)
      db.events h

Keeps-shut_window : (at : ℕ) → Keeps (shut_window at)
unfolding is_open
Keeps-shut_window at = record { arrival = λ r. refl; opens_none = λ f r k. ground arith }

pub close_window-IsSpaced :
    (window at : ℕ) (f : Text) (db : Database)
    → IsSpaced window db.events
    → IsSpaced window (close_window f at db).1.events
unfolding close_window
close_window-IsSpaced window at f db h =
    IsSpaced-update_where window (is_open f) (shut_window at) (Keeps-shut_window at) db.events h
