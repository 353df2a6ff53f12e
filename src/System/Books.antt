-- ===== src/System/Books.antt =====
-- The books of actions/service.py while the receiver works: a request files no ticket, and closes one
-- only with the window of its fingerprint (receiver/repository.py).
use smokejumper.Prelude.{
  ℕ, ◌≤◌, ◌≡◌, refl, inl, inr, List, [], ◌∷◌, map, Text, arith, Bool-cases, ltb,
}
use smokejumper.Persistence.{EventRow, TicketRow, Database, is_open_ticket}
use smokejumper.Persistence.Table.{count_where}
use smokejumper.Queue.{Attempt}
use smokejumper.Actions.Ledger.{writes}
use smokejumper.Actions.Runs.{IsSound}
use smokejumper.Receiver.Repository.{
  dedupe_window, quarantine, quarantine_row, mark_queued, is_open, close_ticket, close_window,
}
use smokejumper.Receiver.Repository.Rows.{admit-eq-ok, insert_event-eq-ok}
use smokejumper.Receiver.Routes.Keeps.{IsKept}
use smokejumper.Receiver.Routes.Invariants.{send-db}

-- A change of the events, and of tickets that were written as often and of which no more are open.
IsSound-closing :
    (db : Database) (rows : List EventRow) (ts : List TicketRow)
    → writes ts ≡ writes db.tickets
    → ((f : Text) → count_where (is_open_ticket f) ts ≤ count_where (is_open_ticket f) db.tickets)
    → IsSound db
    → IsSound (record db { events = rows; tickets = ts })
IsSound-closing db rows ts written fewer sound = record {
  balanced = record {
    balance = omega (arith, written, sound.balanced.balance);
    one_each = sound.balanced.one_each;
    one_open = λ f. omega (arith, fewer f, sound.balanced.one_open f);
  };
  settled = sound.settled;
}

IsSound-events :
    (db : Database) (rows : List EventRow) → IsSound db → IsSound (record db { events = rows })
IsSound-events db rows = IsSound-closing db rows db.tickets refl λ f. omega arith

writes-close_ticket :
    (f : Text) (at : ℕ) (ts : List TicketRow) → writes (map (close_ticket f at) ts) ≡ writes ts
unfolding writes
writes-close_ticket f at [] = refl
writes-close_ticket f at (t ∷ ts) = ground (arith, writes-close_ticket f at ts)

count-close_ticket :
    (f g : Text) (at : ℕ) (ts : List TicketRow)
    → count_where (is_open_ticket g) (map (close_ticket f at) ts)
      ≤ count_where (is_open_ticket g) ts
count-close_ticket f g at [] = omega arith
count-close_ticket f g at (t ∷ ts) = ground (arith, count-close_ticket f g at ts)

close_window-IsSound :
    (f : Text) (at : ℕ) (db : Database) → IsSound db → IsSound (close_window f at db).1
unfolding close_window
close_window-IsSound f at db sound = elim (Bool-cases (ltb 0 (count_where (is_open f) db.events))) [
  | inl closed ↦ rw closed (
      IsSound-closing db _ (map (close_ticket f at) db.tickets)
        (writes-close_ticket f at db.tickets) (λ g. count-close_ticket f g at db.tickets) sound)
  | inr none_closed ↦ rw none_closed (IsSound-events db _ sound)
]

-- Each change of the receiver keeps the books sound, however Redis answers.
pub IsSound-IsKept :
    (sha256_hex : Text → Text) (xadd : ℕ → Attempt) → IsKept sha256_hex xadd (λ s. IsSound s.db)
unfolding quarantine mark_queued
IsSound-IsKept sha256_hex xadd = record {
  admitting = λ e s a db sound h. elim (admit-eq-ok dedupe_window e s.db h) [
    | inl (_, _, _, same) ↦ rw same (IsSound-events s.db _ sound)
    | inr (_, _, _, same) ↦ rw same (IsSound-events s.db _ sound)
  ];
  quarantining = λ id at source reason s db sound h.
      let (_, same) = insert_event-eq-ok (quarantine_row id source at reason) s.db h in
      rw same (IsSound-events s.db _ sound);
  closing = λ f at s. close_window-IsSound f at s.db;
  sending = λ id now e s db sound _.
      send-db sha256_hex xadd IsSound id now e s (λ m. IsSound-events s.db _ sound) sound;
}
