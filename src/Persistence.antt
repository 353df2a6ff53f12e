-- ===== src/Persistence.antt =====
-- The tables of migrations/versions/0001 to 0004, the constraints that the program relies on, and
-- SQL statements and transactions over them.
pub mod Table
pub mod Commit
use smokejumper.Prelude.{ℕ, Bool, ◌&&◌, is_none, Option, List, [], Text, text_eq, Result, ok, err}
use smokejumper.Contracts.Events.{EventSource, AgentEvent}
use smokejumper.Contracts.Conclusions.{Conclusion}

-- Text on the wire or in a `jsonb` column: what `model_dump_json` writes of an event, or any other.
pub data Wire : Type 0 where
  dumped : AgentEvent → Wire
  junk : Text → Wire

-- `events`
pub record EventRow : Type 0 where
  pub id : ℕ
  pub source : EventSource
  pub fingerprint : Option Text
  pub received_at : ℕ
  pub dedupe_count : ℕ
  pub quarantined : Bool
  pub quarantine_reason : Option Text
  pub payload : Option Wire
  pub window_closed_at : Option ℕ
  pub queued_at : Option ℕ
  pub queue_message_id : Option Text

pub data RunStatus : Type 0 where
  running concluded needs_human failed : RunStatus

-- `runs`
pub record RunRow : Type 0 where
  pub run_id : ℕ
  pub event_id : ℕ
  pub fingerprint : Text
  pub status : RunStatus
  pub started_at : ℕ
  pub audit_log_file : Text
  pub audit_start_offset : ℕ
  pub audit_end_offset : Option ℕ
  pub conclusion : Option Conclusion
  pub finished_at : Option ℕ

-- `tickets`; the provider is always `fixture` and the URL always NULL.
pub record TicketRow : Type 0 where
  pub id : ℕ
  pub fingerprint : Text
  pub external_id : Text
  pub created_at : ℕ
  pub closed_at : Option ℕ
  pub update_count : ℕ

-- `ticket_actions`
pub record ActionRow : Type 0 where
  pub run_id : ℕ
  pub fingerprint : Text
  pub ticket_id : ℕ
  pub external_id : Text
  pub created : Bool
  pub update_count : ℕ
  pub applied_at : ℕ

pub record Database : Type 0 where
  pub events : List EventRow
  pub runs : List RunRow
  pub tickets : List TicketRow
  pub ticket_actions : List ActionRow

abbrev pub empty : Database
empty = record { events = []; runs = []; tickets = []; ticket_actions = [] }

-- Statements inside one transaction. An exception abandons it.
abbrev pub Tx : Type 0 → Type 0
Tx A = Database → Result (A × Database)

-- `async with engine.begin()`: a commit, or a rollback and the exception.
unfoldable pub begin : {A : Type 0} → Tx A → Database → Result A × Database
begin m db = elim (m db) [ ok (a, db') ↦ (ok a, db') | err e ↦ (err e, db) ]

-- The condition of the partial unique index on `tickets`.
abbrev pub is_open_ticket : Text → TicketRow → Bool
is_open_ticket f t = text_eq t.fingerprint f && is_none t.closed_at
