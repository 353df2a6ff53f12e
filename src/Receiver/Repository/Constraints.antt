-- ===== src/Receiver/Repository/Constraints.antt =====
-- The check constraints of `events` (migrations 0001 and 0004), and that every statement of
-- receiver/repository.py keeps them.
use smokejumper.Prelude.{
  ℕ, ◌≤◌, ◌≡◌, ◌≢◌, refl, Bool, true, false, List, [], ◌∷◌, ◌++◌, arith, not, is_none, inl, inr,
  All, All-append, any, Text, ok, if◌then◌else◌,
}
use smokejumper.Contracts.Events.{EventSource, AgentEvent}
use smokejumper.Persistence.{EventRow, Database}
use smokejumper.Persistence.Table.{update_where}
use smokejumper.Receiver.Repository.{
  Admission, is_open, has_id, bump, new_row, admit, quarantine, quarantine_row, lacks_receipt,
  with_receipt, mark_queued, shut_window, close_window,
}
use smokejumper.Receiver.Repository.Rows.{insert_event-eq-ok, admit-eq-ok}
use smokejumper.Receiver.Repository.Dedupe.{HasDistinctIds}

-- `events_quarantine_invariant` and `events_queue_state_paired`, and the bound of B2.
pub record IsValidRow (r : EventRow) : Type 0 where
  pub no_payload : is_none r.payload ≡ r.quarantined
  pub no_fingerprint : is_none r.fingerprint ≡ r.quarantined
  pub reason : is_none r.quarantine_reason ≡ not r.quarantined
  pub receipt : is_none r.queued_at ≡ is_none r.queue_message_id
  pub counted : 1 ≤ r.dedupe_count

-- The constraints of the table: those of its rows, and the primary key.
pub record IsValid (rows : List EventRow) : Type 0 where
  pub each : All IsValidRow rows
  pub keys : HasDistinctIds rows

module _ (test : EventRow → Bool) (set : EventRow → EventRow) where
  each-update :
      ((r : EventRow) → IsValidRow r → IsValidRow (set r))
      → (rows : List EventRow) → All IsValidRow rows
      → All IsValidRow (update_where test set rows)
  each-update keep [] h = tt
  each-update keep (r ∷ rows) (h, hs) = (by_test (test r), each-update keep rows hs)
    where
      by_test : (t : Bool) → IsValidRow (if t then set r else r)
      by_test true = keep r h
      by_test false = h

  module _ (same_id : (r : EventRow) → (set r).id ≡ r.id) where
    id-update : (r : EventRow) → (if test r then set r else r).id ≡ r.id
    id-update r = ground (arith, same_id r)

    apart-update :
        (id : ℕ) (rows : List EventRow)
        → All (λ (s : EventRow). s.id ≢ id) rows
        → All (λ (s : EventRow). s.id ≢ id) (update_where test set rows)
    apart-update id [] h = tt
    apart-update id (s ∷ rows) (h, hs) = (rw (id-update s) h, apart-update id rows hs)

    pub keys-update :
        (rows : List EventRow) → HasDistinctIds rows → HasDistinctIds (update_where test set rows)
    keys-update [] d = tt
    keys-update (r ∷ rows) (d, ds) =
        (rw (id-update r) (apart-update r.id rows d), keys-update rows ds)

    pub IsValid-update_where :
        ((r : EventRow) → IsValidRow r → IsValidRow (set r))
        → (rows : List EventRow) → IsValid rows
        → IsValid (update_where test set rows)
    IsValid-update_where keep rows v = record {
      each = each-update keep rows v.each;
      keys = keys-update rows v.keys;
    }

apart_of_fresh :
    (id : ℕ) (rows : List EventRow)
    → any (has_id id) rows ≡ false
    → All (λ (s : EventRow). s.id ≢ id) rows
apart_of_fresh id [] h = tt
apart_of_fresh id (s ∷ rows) h = (ground arith, apart_of_fresh id rows (ground arith))

pub keys-append :
    (rows : List EventRow) (r : EventRow)
    → any (has_id r.id) rows ≡ false
    → HasDistinctIds rows
    → HasDistinctIds (rows ++ r ∷ [])
keys-append [] r h d = (tt, tt)
keys-append (s ∷ rows) r h (d, ds) = (
  All-append (λ (t : EventRow). t.id ≢ s.id) rows (r ∷ []) d (ground arith, tt),
  keys-append rows r (ground arith) ds,
)

IsValid-append :
    (rows : List EventRow) (r : EventRow)
    → any (has_id r.id) rows ≡ false
    → IsValidRow r
    → IsValid rows
    → IsValid (rows ++ r ∷ [])
IsValid-append rows r fresh h v = record {
  each = All-append IsValidRow rows (r ∷ []) v.each (h, tt);
  keys = keys-append rows r fresh v.keys;
}

-- Whether it joins an event or becomes one, an admitted delivery leaves the constraints true.
pub admit-IsValid :
    (window : ℕ) (e : AgentEvent) (db : Database) {a : Admission} {db' : Database}
    → IsValid db.events
    → admit window e db ≡ ok (a, db')
    → IsValid db'.events
admit-IsValid window e db v h = elim (admit-eq-ok window e db h) [
  | inl (r, _, _, same) ↦
      rw same
        (IsValid-update_where (has_id r.id) bump (λ s. refl) (λ s w. ground arith) db.events v)
  | inr (_, fresh, _, same) ↦ rw same (IsValid-append db.events (new_row e) fresh (ground arith) v)
]

pub quarantine-IsValid :
    (id at : ℕ) (source : EventSource) (reason : Text) (db : Database) {db' : Database}
    → IsValid db.events
    → quarantine id source at reason db ≡ ok (tt, db')
    → IsValid db'.events
unfolding quarantine
quarantine-IsValid id at source reason db v h =
    let (fresh, same) = insert_event-eq-ok (quarantine_row id source at reason) db h in
    rw same (IsValid-append db.events (quarantine_row id source at reason) fresh (ground arith) v)

pub mark_queued-IsValid :
    (id at : ℕ) (m : Text) (db : Database)
    → IsValid db.events
    → IsValid (mark_queued id m at db).events
unfolding mark_queued
mark_queued-IsValid id at m db v =
    IsValid-update_where (lacks_receipt id) (with_receipt m at) (λ s. refl) (λ s w. ground arith)
      db.events v

pub close_window-IsValid :
    (f : Text) (at : ℕ) (db : Database)
    → IsValid db.events
    → IsValid (close_window f at db).1.events
unfolding close_window
close_window-IsValid f at db v =
    IsValid-update_where (is_open f) (shut_window at) (λ s. refl) (λ s w. ground arith) db.events v
