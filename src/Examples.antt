-- ===== src/Examples.antt =====
-- Concrete inputs at which the theorems of the other modules are applied.
pub mod Tables
pub mod Requests
pub mod Normalized
pub mod Boots
pub mod Services
pub mod Checks
pub mod Documents
pub mod Diagrams
use smokejumper.Prelude.{
  ℕ, Option, none, some, List, [], ◌∷◌, Text, lit, Bool, true, false, Result, ok,
}
use smokejumper.Contracts.Json.{Json, str, Fields, end, field}
use smokejumper.Contracts.Conclusions.{Conclusion, inconclusive}
use smokejumper.Contracts.Events.{AgentEvent, datadog, alert, high}
use smokejumper.Persistence.{EventRow, RunRow, running, Database, dumped}
use smokejumper.Queue.{Attempt, sent, Redis}
use smokejumper.Receiver.Repository.{new_row}
use smokejumper.Receiver.Delivery.{Store}

-- A digest of 64 zeros for every text.
abbrev pub zeros : Text
zeros = lit "0000000000000000000000000000000000000000000000000000000000000000"

abbrev pub constant_digest : Text → Text
constant_digest text = zeros

abbrev pub event_at : ℕ → ℕ → AgentEvent
event_at id received_at = record {
  id = id;
  source = datadog;
  kind = alert;
  source_event_key = lit "monitor";
  fingerprint = zeros;
  severity = high;
  title = lit "disk full";
  body = [];
  entities = record { type = lit "host"; id = lit "db-1" } ∷ [];
  occurred_at = received_at;
  received_at = received_at;
  dedupe_count = 1;
  raw = end;
}

abbrev pub run_of : ℕ → RunRow
run_of id = record {
  run_id = id;
  event_id = id;
  fingerprint = zeros;
  status = running;
  started_at = 10;
  audit_log_file = lit "flight.jsonl";
  audit_start_offset = 0;
  audit_end_offset = none;
  conclusion = none;
  finished_at = none;
}

-- One admitted event and its run.
abbrev pub one_event : Database
one_event = record {
  events = new_row (event_at 1 1000) ∷ [];
  runs = run_of 1 ∷ run_of 2 ∷ [];
  tickets = [];
  ticket_actions = [];
}

abbrev pub conclusion_of : ℕ → Conclusion
conclusion_of run_id = record {
  run_id = run_id;
  fingerprint = zeros;
  status = inconclusive;
  confidence = 6;
  summary_md = lit "no cause";
  findings = [];
  evidence_refs = lit "event:1" ∷ [];
  proposed_actions = [];
  tokens_spent = 0;
  wall_ms = 1;
}

abbrev pub acknowledging : ℕ → Attempt
acknowledging n = sent (lit "1-0")

abbrev pub one_store : Store
one_store = record { db = one_event; redis = record { entries = []; attempts = 0 } }

abbrev pub render : Json → Text
render document = lit "{}"

abbrev pub int_of : Text → Option (Bool × ℕ)
int_of text = none

abbrev pub fromtimestamp : ℕ → Result ℕ
fromtimestamp milliseconds = ok milliseconds

abbrev pub fromisoformat : Text → Option ℕ
fromisoformat text = none

-- One host tag, and two of them in either order.
abbrev pub datadog_payload : Text → Fields
datadog_payload tags =
    field (lit "alert_id") (str (lit "monitor")) (field (lit "tags") (str tags) end)
