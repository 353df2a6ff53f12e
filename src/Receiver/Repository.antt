-- ===== src/Receiver/Repository.antt =====
-- src/smokejumper/receiver/repository.py: every statement over `events`. `close_window` includes
-- the trigger of migrations/versions/0004_event_queue_outbox.py.
pub mod Rows
pub mod Spacing
pub mod Dedupe
pub mod Constraints
pub mod Window
use smokejumper.Prelude.{
  ℕ, ◌+◌, ◌*◌, Bool, true, false, ◌&&◌, not, is_none, ltb, ◌==◌, Option, none, some, List, [], ◌∷◌,
  ◌++◌, map, any, select, take, Text, text_eq, Error, value_error, other, Result, ok, err, ◌>>=◌,
  if◌then◌else◌,
}
use smokejumper.Prelude.Sorted.{sorted}
use smokejumper.Contracts.Events.{EventSource, AgentEvent, model_validate}
use smokejumper.Persistence.{Wire, dumped, junk, EventRow, TicketRow, Database, Tx, is_open_ticket}
use smokejumper.Persistence.Table.{update_where, first, count_where}

-- `DEDUPE_WINDOW`: 15 minutes, in microseconds.
abbrev pub dedupe_window : ℕ
dedupe_window = 15 * 60 * 1000000

pub record Admission : Type 0 where
  pub event_id : ℕ
  pub fingerprint : Text
  pub dedupe_count : ℕ
  pub is_duplicate : Bool

-- A column that may be NULL, compared with a text: NULL is never equal.
abbrev pub column_eq : Option Text → Text → Bool
column_eq none t = false
column_eq (some s) t = text_eq s t

-- The incident is unquarantined, open and has this fingerprint.
unfoldable pub is_open : Text → EventRow → Bool
is_open f r = column_eq r.fingerprint f && (not r.quarantined && is_none r.window_closed_at)

-- `received_at > :cutoff`, where the cutoff is the window before the delivery's arrival.
unfoldable pub is_recent : ℕ → ℕ → EventRow → Bool
is_recent window received_at r = ltb received_at (r.received_at + window)

abbrev pub is_candidate : ℕ → AgentEvent → EventRow → Bool
is_candidate window e r = is_open e.fingerprint r && is_recent window e.received_at r

-- `ORDER BY received_at`
abbrev pub row_lt : EventRow → EventRow → Bool
row_lt r s = ltb r.received_at s.received_at

-- `ORDER BY received_at LIMIT 1`: the earliest row, the first of those that arrived together.
unfoldable pub earliest : List EventRow → Option EventRow
earliest [] = none
earliest (r ∷ rows) = elim (earliest rows) [
  | none ↦ some r
  | some s ↦ if row_lt s r then some s else some r
]

abbrev pub has_id : ℕ → EventRow → Bool
has_id id r = r.id == id

abbrev pub bump : EventRow → EventRow
bump r = record r { dedupe_count = r.dedupe_count + 1 }

abbrev pub new_row : AgentEvent → EventRow
new_row e = record {
  id = e.id;
  source = e.source;
  fingerprint = some e.fingerprint;
  received_at = e.received_at;
  dedupe_count = 1;
  quarantined = false;
  quarantine_reason = none;
  payload = some (dumped e);
  window_closed_at = none;
  queued_at = none;
  queue_message_id = none;
}

-- An INSERT into `events`: a second row with one primary key is refused.
unfoldable pub insert_event : EventRow → Tx Unit
insert_event r db =
    if any (has_id r.id) db.events
    then err other
    else ok (tt, record db { events = db.events ++ r ∷ [] })

-- The two answers: the open event that the delivery joined, or the event that it became.
abbrev pub joined : AgentEvent → EventRow → Admission
joined e r = record {
  event_id = r.id;
  fingerprint = e.fingerprint;
  dedupe_count = r.dedupe_count + 1;
  is_duplicate = true;
}

abbrev pub opened : AgentEvent → Admission
opened e = record {
  event_id = e.id;
  fingerprint = e.fingerprint;
  dedupe_count = 1;
  is_duplicate = false;
}

unfoldable pub admit : ℕ → AgentEvent → Tx Admission
unfolding insert_event earliest
admit window e db = elim (earliest (select (is_candidate window e) db.events)) [
  | some r ↦ ok (joined e r, record db { events = update_where (has_id r.id) bump db.events })
  | none ↦ insert_event (new_row e) db >>= λ (_, db'). ok (opened e, db')
]

abbrev pub quarantine_row : ℕ → EventSource → ℕ → Text → EventRow
quarantine_row event_id source received_at reason = record {
  id = event_id;
  source = source;
  fingerprint = none;
  received_at = received_at;
  dedupe_count = 1;
  quarantined = true;
  quarantine_reason = some reason;
  payload = none;
  window_closed_at = none;
  queued_at = none;
  queue_message_id = none;
}

unfoldable pub quarantine : ℕ → EventSource → ℕ → Text → Tx Unit
unfolding insert_event
quarantine event_id source received_at reason =
    insert_event (quarantine_row event_id source received_at reason)

module _ (sha256_hex : Text → Text) where
  -- `AgentEvent.model_validate` of a stored or received document.
  unfoldable pub load : Wire → Result AgentEvent
  load (dumped e) = model_validate sha256_hex e
  load (junk text) = err value_error

  unfoldable pub load_column : Option Wire → Result AgentEvent
  unfolding load
  load_column none = err value_error
  load_column (some w) = load w

  -- The payload and the receipt of an admitted event.
  unfoldable pub event_for_queue : ℕ → Tx (Option (AgentEvent × Option Text))
  unfolding load_column
  event_for_queue event_id db =
      elim (first (λ r. has_id event_id r && not r.quarantined) db.events) [
        | none ↦ ok (none, db)
        | some r ↦ load_column r.payload >>= λ e. ok (some (e, r.queue_message_id), db)
      ]

abbrev pub with_receipt : Text → ℕ → EventRow → EventRow
with_receipt message_id queued_at r = record r {
  queued_at = some queued_at;
  queue_message_id = some message_id;
}

abbrev pub lacks_receipt : ℕ → EventRow → Bool
lacks_receipt event_id r = has_id event_id r && is_none r.queue_message_id

unfoldable pub mark_queued : ℕ → Text → ℕ → Database → Database
mark_queued event_id message_id queued_at db = record db {
  events = update_where (lacks_receipt event_id) (with_receipt message_id queued_at) db.events;
}

unfoldable pub is_pending : EventRow → Bool
is_pending r = not r.quarantined && is_none r.queued_at

unfoldable pub pending_queue_event_ids : ℕ → Database → List ℕ
unfolding is_pending sorted
pending_queue_event_ids limit db =
    take limit (map (λ (r : EventRow). r.id) (sorted row_lt (select is_pending db.events)))

unfoldable pub pending_queue_count : Database → ℕ
unfolding is_pending
pending_queue_count db = count_where is_pending db.events

-- The trigger: a row whose window closes closes the open tickets of its fingerprint.
abbrev pub close_ticket : Text → ℕ → TicketRow → TicketRow
close_ticket f closed_at t =
    if is_open_ticket f t then record t { closed_at = some closed_at } else t

abbrev pub shut_window : ℕ → EventRow → EventRow
shut_window closed_at r = record r { window_closed_at = some closed_at }

unfoldable pub close_window : Text → ℕ → Database → ℕ × Database
close_window f closed_at db =
    let affected = count_where (is_open f) db.events in
    (
      affected,
      record db {
        events = update_where (is_open f) (shut_window closed_at) db.events;
        tickets = if ltb 0 affected then map (close_ticket f closed_at) db.tickets else db.tickets;
      },
    )
