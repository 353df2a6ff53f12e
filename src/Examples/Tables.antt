-- ===== src/Examples/Tables.antt =====
-- The theorems on the tables, the stream and the worker at small tables.
use smokejumper.Prelude.{
  ◌≡◌, refl, ◌+◌, true, not, [], ◌∷◌, lit, any, arith, ok, text_eq, if◌then◌else◌,
}
use smokejumper.Contracts.Fingerprint.{
  canonical, is_surrogate, json_string, json_pairs, json_pair, json_more, escape_all, escape,
  pair_lt, event_fingerprint,
}
use smokejumper.Prelude.{text_lt}
use smokejumper.Prelude.Sorted.{sorted, place}
use smokejumper.Contracts.Events.{model_validate, is_sha256_hex, is_entity, source_value}
use smokejumper.Persistence.{EventRow, Database, is_open_ticket, dumped}
use smokejumper.Persistence.Table.{count_where}
use smokejumper.Queue.{Message, message, copies}
use smokejumper.Receiver.Repository.{
  admit, new_row, bump, load, joined, opened, is_open, is_recent, is_candidate, close_window,
  dedupe_window,
}
use smokejumper.Receiver.Repository.Spacing.{IsSpaced, admit-IsSpaced}
use smokejumper.Receiver.Repository.Dedupe.{
  HasDistinctIds, deliveries, survives, deliveries-admit, admit_exact,
}
use smokejumper.Receiver.Repository.Window.{admit-close_window}
use smokejumper.Receiver.Delivery.Outbox.{IsExact}
use smokejumper.Actions.{
  is_concluded, apply, TicketOutcome, created_outcome, new_ticket, action_row,
}
use smokejumper.Actions.Redelivery.{apply_again, apply_one_ticket, apply_total}
use smokejumper.Actions.Ledger.{writes, IsBalanced, apply-IsBalanced}
use smokejumper.Actions.Runs.{IsSound}
use smokejumper.Recorder.{stored, AuditEvent, Recorder, event, append}
use smokejumper.Recorder.Numbering.{IsNumbered, append-IsNumbered}
use smokejumper.Intelligence.Claims.{IsGrounded, triage-IsGrounded}
use smokejumper.Prelude.{none}
use smokejumper.Worker.{Env, World}
use smokejumper.Examples.{zeros, constant_digest, event_at, one_event, conclusion_of, one_store}

-- A second delivery a second later joins the first.
abbrev first_row : EventRow
first_row = new_row (event_at 1 1000)

abbrev after_second : Database
after_second = record one_event { events = bump first_row ∷ [] }

second_joins :
    admit dedupe_window (event_at 2 2000) one_event
    ≡ ok (joined (event_at 2 2000) first_row, after_second)
unfolding admit is_open text_eq is_recent
second_joins = refl

one_event-IsSpaced : IsSpaced dedupe_window one_event.events
one_event-IsSpaced = (tt, tt)

one_event-HasDistinctIds : HasDistinctIds one_event.events
one_event-HasDistinctIds = (tt, tt)

admit-IsSpaced_example : IsSpaced dedupe_window after_second.events
admit-IsSpaced_example =
    admit-IsSpaced dedupe_window (event_at 2 2000) one_event one_event-IsSpaced second_joins

deliveries-admit_example :
    deliveries zeros after_second.events
    ≡ deliveries zeros one_event.events + (if text_eq zeros zeros then 1 else 0)
deliveries-admit_example =
    deliveries-admit dedupe_window (event_at 2 2000) zeros one_event one_event-HasDistinctIds
      second_joins

admit_exact_example :
    (true ≡ any (is_candidate dedupe_window (event_at 2 2000)) one_event.events)
    × (any (survives 1 zeros) after_second.events ≡ true)
admit_exact_example = admit_exact dedupe_window (event_at 2 2000) one_event second_joins

admit-close_window_example :
    (db' : Database) × (admit dedupe_window (event_at 2 2000) (close_window zeros 1500 one_event).1
      ≡ ok (opened (event_at 2 2000), db'))
admit-close_window_example = admit-close_window dedupe_window 1500 (event_at 2 2000) one_event refl

pub one_store-IsExact : IsExact one_store.db.events one_store.redis.entries
unfolding copies
one_store-IsExact = record {
  keyed = (λ e h. cc, tt);
  keys = (tt, tt);
  once = (refl, tt);
  known = λ id h. refl;
}

abbrev filed : TicketOutcome
filed = created_outcome (new_ticket 7 zeros 50)

abbrev after_first : Database
after_first = record one_event {
  tickets = new_ticket 7 zeros 50 ∷ [];
  ticket_actions = action_row 1 zeros 50 filed ∷ [];
}

first_files : apply 7 50 (conclusion_of 1) one_event ≡ ok (filed, after_first)
unfolding apply
first_files = refl

apply_again_example :
    apply 8 60 (conclusion_of 1) after_first ≡ ok (record filed { replayed = true }, after_first)
apply_again_example = apply_again 7 50 8 60 (conclusion_of 1) one_event first_files

apply_one_ticket_example :
    (true ≡ not (any (is_open_ticket zeros) one_event.tickets))
    × (count_where (is_open_ticket zeros) after_first.tickets ≡ 1)
apply_one_ticket_example =
    apply_one_ticket 7 50 (conclusion_of 1) one_event (λ f. omega arith) refl first_files

apply_total_example :
    (o : TicketOutcome) × (db' : Database) × (apply 7 50 (conclusion_of 1) one_event ≡ ok (o, db'))
apply_total_example = apply_total 7 50 (conclusion_of 1) one_event refl refl

one_event-IsBalanced : IsBalanced one_event
unfolding writes
one_event-IsBalanced = record {
  balance = refl;
  one_each = λ run. omega arith;
  one_open = λ f. omega arith;
}

apply-IsBalanced_example : IsBalanced after_first
apply-IsBalanced_example =
    apply-IsBalanced 7 50 (conclusion_of 1) one_event one_event-IsBalanced first_files

pub one_event-IsSound : IsSound one_event
unfolding is_concluded
one_event-IsSound = record { balanced = one_event-IsBalanced; settled = (λ h. cc, (λ h. cc, tt)) }

abbrev pub env : Env
env = record {
  uuid_text = λ n. lit "uuid";
  isoformat = λ n. lit "2026-01-01T00:00:00+00:00";
  log_file = lit "flight.jsonl";
  disk = λ n. stored;
  line_size = λ e. 100;
  clock = λ n. 50 + n;
  elapsed_ms = 2;
  fresh = 7;
  db_up = λ n. true;
  ack_up = true;
}

abbrev pub world : World
world = record {
  db = one_event;
  recorder = record { lines = []; size = 0; last_seq = λ run. 0; failures = 0; writes = 0 };
  acked = [];
}

abbrev pub first_message : Message
first_message = message (lit "1-0") (event_at 1 1000)

pub event_loads : load constant_digest (dumped (event_at 1 1000)) ≡ ok (event_at 1 1000)
unfolding load model_validate is_sha256_hex is_entity event_fingerprint canonical is_surrogate
    json_string json_pairs json_pair json_more escape_all escape sorted place pair_lt text_lt
    text_eq source_value
event_loads = refl

triage-IsGrounded_example : IsGrounded env.uuid_text env.isoformat 2 (event_at 1 1000) none
triage-IsGrounded_example = triage-IsGrounded env.uuid_text env.isoformat 2 (event_at 1 1000) none

abbrev first_line : AuditEvent
first_line = record {
  run_id = 1;
  seq = 1;
  ts = 5;
  actor = lit "worker";
  payload = event (event_at 1 1000);
}

abbrev pub recorder : Recorder
recorder = record {
  lines = first_line ∷ [];
  size = 100;
  last_seq = λ run. 1;
  failures = 0;
  writes = 1;
}

recorder-IsNumbered : IsNumbered recorder
recorder-IsNumbered = record { issued = (omega arith, tt); increasing = (tt, tt) }

append-IsNumbered_example : IsNumbered (append env.disk env.line_size first_line recorder).1
append-IsNumbered_example =
    append-IsNumbered first_line recorder recorder-IsNumbered env.disk env.line_size
