-- ===== src/Actions.antt =====
-- src/smokejumper/actions/service.py: tickets and runs. Each function is one transaction's body.
pub mod Tickets
pub mod Redelivery
pub mod Ledger
pub mod Runs
pub mod Books
pub mod Progress
use smokejumper.Prelude.{
  ℕ, ◌+◌, Bool, true, false, ◌&&◌, ◌||◌, not, is_none, leb, ◌==◌, Option, none, some, List, [], ◌∷◌,
  ◌++◌, any, take, Text, lit, upper, text_eq, Error, other, Result, ok, err, guard, ◌>>=◌, ◌>>◌,
  if◌then◌else◌,
}
use smokejumper.Contracts.Conclusions.{Conclusion, ConclusionStatus}
use smokejumper.Persistence.{
  RunStatus, running, concluded, RunRow, TicketRow, ActionRow, Database, Tx, is_open_ticket,
}
use smokejumper.Persistence.Table.{update_where, first}

pub record TicketOutcome : Type 0 where
  pub ticket_id : ℕ
  pub external_id : Text
  pub created : Bool
  pub update_count : ℕ
  pub replayed : Bool

pub record RunClaim : Type 0 where
  pub status : RunStatus
  pub conclusion_status : Option ConclusionStatus

abbrev pub is_run : ℕ → RunRow → Bool
is_run run_id r = r.run_id == run_id

abbrev pub is_action : ℕ → ActionRow → Bool
is_action run_id a = a.run_id == run_id

abbrev pub is_ticket : ℕ → TicketRow → Bool
is_ticket id t = t.id == id

-- The first result of a run, read back.
abbrev pub replay : ActionRow → TicketOutcome
replay a = record {
  ticket_id = a.ticket_id;
  external_id = a.external_id;
  created = a.created;
  update_count = a.update_count;
  replayed = true;
}

-- `f"SMOKE-{fingerprint[:8].upper()}"`
unfoldable pub external_id_of : Text → Text
unfolding upper
external_id_of fingerprint = lit "SMOKE-" ++ upper (take 8 fingerprint)

abbrev pub new_ticket : ℕ → Text → ℕ → TicketRow
new_ticket id fingerprint now = record {
  id = id;
  fingerprint = fingerprint;
  external_id = external_id_of fingerprint;
  created_at = now;
  closed_at = none;
  update_count = 0;
}

abbrev pub comment : TicketRow → TicketRow
comment t = record t { update_count = t.update_count + 1 }

abbrev pub created_outcome : TicketRow → TicketOutcome
created_outcome t = record {
  ticket_id = t.id;
  external_id = t.external_id;
  created = true;
  update_count = 0;
  replayed = false;
}

abbrev pub updated_outcome : TicketRow → TicketOutcome
updated_outcome t = record {
  ticket_id = t.id;
  external_id = t.external_id;
  created = false;
  update_count = t.update_count + 1;
  replayed = false;
}

-- INSERT … ON CONFLICT (fingerprint) WHERE closed_at IS NULL DO NOTHING RETURNING …: `none` at a
-- conflict. A ticket with the same primary key is an error.
unfoldable pub insert_ticket : TicketRow → Tx (Option TicketRow)
insert_ticket t db =
    if any (is_open_ticket t.fingerprint) db.tickets
    then ok (none, db)
    else if any (is_ticket t.id) db.tickets
    then err other
    else ok (some t, record db { tickets = db.tickets ++ t ∷ [] })

-- UPDATE … SET update_count = update_count + 1 WHERE fingerprint = … AND closed_at IS NULL
unfoldable pub comment_on_open : Text → Tx TicketOutcome
comment_on_open fingerprint db = elim (first (is_open_ticket fingerprint) db.tickets) [
  | none ↦ err other
  | some t ↦ ok (
    updated_outcome t,
    record db { tickets = update_where (is_open_ticket fingerprint) comment db.tickets },
  )
]

unfoldable pub create_or_update : ℕ → ℕ → Text → Tx TicketOutcome
unfolding insert_ticket comment_on_open
create_or_update ticket_id now fingerprint db = do
  (inserted, db') ← insert_ticket (new_ticket ticket_id fingerprint now) db
  elim inserted [ some t ↦ ok (created_outcome t, db') | none ↦ comment_on_open fingerprint db' ]

abbrev pub action_row : ℕ → Text → ℕ → TicketOutcome → ActionRow
action_row run_id fingerprint now o = record {
  run_id = run_id;
  fingerprint = fingerprint;
  ticket_id = o.ticket_id;
  external_id = o.external_id;
  created = o.created;
  update_count = o.update_count;
  applied_at = now;
}

-- INSERT INTO ticket_actions
abbrev pub log_action :
    ℕ → Conclusion → TicketOutcome × Database → Result (TicketOutcome × Database)
log_action now c (o, db) = ok (
  o,
  record db { ticket_actions = db.ticket_actions ++ action_row c.run_id c.fingerprint now o ∷ [] },
)

-- `apply`, of a conclusion's run id and fingerprint. `ticket_id` is the fresh `uuid4()`.
unfoldable pub apply : ℕ → ℕ → Conclusion → Tx TicketOutcome
unfolding create_or_update
apply ticket_id now c db =
    if any (is_run c.run_id) db.runs
    then elim (first (is_action c.run_id) db.ticket_actions) [
      | some prior ↦ ok (replay prior, db)
      | none ↦ create_or_update ticket_id now c.fingerprint db >>= log_action now c
    ]
    else err other

abbrev pub new_run : ℕ → ℕ → Text → Text → ℕ → ℕ → RunRow
new_run run_id event_id fingerprint log_file start_offset started_at = record {
  run_id = run_id;
  event_id = event_id;
  fingerprint = fingerprint;
  status = running;
  started_at = started_at;
  audit_log_file = log_file;
  audit_start_offset = start_offset;
  audit_end_offset = none;
  conclusion = none;
  finished_at = none;
}

unfoldable pub is_running : RunStatus → Bool
is_running running = true
is_running _ = false

abbrev pub restart : Text → ℕ → ℕ → RunRow → RunRow
restart log_file start_offset started_at r = record r {
  audit_log_file = log_file;
  audit_start_offset = start_offset;
  started_at = started_at;
}

-- `conclusion ->> 'status'`
abbrev pub conclusion_status : RunRow → Option ConclusionStatus
conclusion_status r = elim r.conclusion [ none ↦ none | some c ↦ some c.status ]

-- INSERT … ON CONFLICT (run_id) DO NOTHING
abbrev pub inserted_runs : RunRow → List RunRow → List RunRow
inserted_runs r runs = if any (is_run r.run_id) runs then runs else runs ++ r ∷ []

-- The UPDATE of a run that is still running.
abbrev pub restarted_runs : ℕ → Text → ℕ → ℕ → List RunRow → List RunRow
restarted_runs run_id log_file start_offset started_at =
    update_where (λ r. is_run run_id r && is_running r.status)
      (restart log_file start_offset started_at)

unfoldable pub open_run : ℕ → ℕ → Text → Text → ℕ → ℕ → Tx RunClaim
unfolding is_running
open_run run_id event_id fingerprint log_file start_offset started_at db =
    let runs = restarted_runs run_id log_file start_offset started_at (
      inserted_runs (new_run run_id event_id fingerprint log_file start_offset started_at)
        db.runs) in
    elim (first (is_run run_id) runs) [
      | none ↦ err other
      | some r ↦ ok (
        record { status = r.status; conclusion_status = conclusion_status r },
        record db { runs = runs },
      )
    ]

abbrev pub finish : RunStatus → Option Conclusion → ℕ → ℕ → RunRow → RunRow
finish status conclusion finished_at end_offset r = record r {
  status = status;
  conclusion = conclusion;
  finished_at = some finished_at;
  audit_end_offset = some end_offset;
}

unfoldable pub is_concluded : RunStatus → Bool
is_concluded concluded = true
is_concluded _ = false

-- `runs_concluded_has_conclusion`, and `runs_audit_offsets_ordered`, of a row that is written.
abbrev pub may_finish : RunStatus → Option Conclusion → ℕ → RunRow → Bool
may_finish status conclusion end_offset r =
    (not (is_concluded status) || not (is_none conclusion)) && leb r.audit_start_offset end_offset

unfoldable pub close_run : ℕ → RunStatus → Option Conclusion → ℕ → ℕ → Tx (Unit {0})
unfolding is_concluded
close_run run_id status conclusion end_offset finished_at db =
    if any (λ r. is_run run_id r && not (may_finish status conclusion end_offset r)) db.runs
    then err other
    else ok (
      tt,
      record db {
        runs =
            update_where (is_run run_id) (finish status conclusion finished_at end_offset) db.runs;
      },
    )
