-- ===== src/App.antt =====
-- src/smokejumper/app.py: what an orchestrator and an operator can ask of the service.
pub mod Health
pub mod Newest
use smokejumper.Prelude.{
  ℕ, Bool, true, false, ◌&&◌, Option, none, some, List, [], ◌∷◌, ◌++◌, Text, lit, all, text_eq,
  select, ltb, Result, ok, err, if◌then◌else◌, ◌==◌,
}
use smokejumper.Contracts.Events.{EventSource, datadog, grafana, pagerduty, generic}
use smokejumper.Contracts.Conclusions.{Conclusion, ConclusionStatus, Finding}
use smokejumper.Persistence.{RunStatus, RunRow, TicketRow, ActionRow, Database}
use smokejumper.Persistence.Table.{first}
use smokejumper.Receiver.Delivery.{Task, status}
use smokejumper.Receiver.Routes.{Router}
use smokejumper.Actions.{is_action, is_ticket}
use smokejumper.Worker.Depth.{Depth}

-- `_probe` of a check that answers, or raises an exception of this class; one that takes too long
-- raises `TimeoutError`.
unfoldable pub probe : Option Text → Text
probe none = lit "ok"
probe (some error) = lit "down: " ++ error

-- What `/healthz` finds: the exceptions of its three checks, and the two tasks once they have
-- started.
pub record Vitals : Type 0 where
  pub postgres : Option Text
  pub schema : Option Text
  pub redis : Option Text
  pub worker : Option Task
  pub outbox : Option Task
  pub recorder_write_failures : ℕ
  pub queue : Result Depth
  pub outbox_pending : Result ℕ

abbrev task_status : Option Task → Text
task_status none = lit "starting"
task_status (some task) = status task

unfoldable pub checks : Vitals → List (Text × Text)
unfolding probe status
checks v =
    (lit "postgres", probe v.postgres)
    ∷ (lit "schema", probe v.schema)
    ∷ (lit "redis", probe v.redis)
    ∷ (lit "worker", task_status v.worker)
    ∷ (lit "outbox", task_status v.outbox)
    ∷ []

-- `contextlib.suppress(Exception)`
abbrev suppressed : {A : Type 0} → Result A → Option A
suppressed (ok a) = some a
suppressed (err error) = none

pub record HealthAnswer : Type 0 where
  pub status_code : ℕ
  pub verdict : Text
  pub found : List (Text × Text)
  pub recorder_write_failures : ℕ
  pub queue : Option Depth
  pub outbox_pending : Option ℕ

unfoldable pub healthz : Vitals → HealthAnswer
unfolding checks
healthz v =
    let healthy = all (λ (check : Text × Text). text_eq check.1 (lit "ok")) (checks v) in
    record {
      status_code = if healthy then 200 else 503;
      verdict = if healthy then lit "ok" else lit "unhealthy";
      found = checks v;
      recorder_write_failures = v.recorder_write_failures;
      queue = suppressed v.queue;
      outbox_pending = suppressed v.outbox_pending;
    }

-- `ORDER BY … DESC LIMIT 1`; of rows with one time the database may return any, and this is the first.
unfoldable pub newest : {A : Type 0} → (A → ℕ) → List A → Option A
newest time [] = none
newest time (a ∷ rows) = elim (newest time rows) [
  | none ↦ some a
  | some b ↦ if ltb (time a) (time b) then some b else some a
]

-- The newest run of a fingerprint.
abbrev pub latest_run : Text → Database → Option RunRow
latest_run f db =
    newest (λ (r : RunRow). r.started_at) (select (λ (r : RunRow). text_eq r.fingerprint f) db.runs)

-- The ticket that the run acted on, or else the newest of its fingerprint.
unfoldable pub ticket_id_of : RunRow → Database → Option ℕ
unfolding newest
ticket_id_of r db = elim (first (is_action r.run_id) db.ticket_actions) [
  | some action ↦ some action.ticket_id
  | none ↦
      elim (newest (λ (t : TicketRow). t.created_at)
        (select (λ (t : TicketRow). text_eq t.fingerprint r.fingerprint) db.tickets)) [
          | none ↦ none
          | some t ↦ some t.id
        ]
]

-- The LEFT JOIN.
unfoldable pub joined_ticket : RunRow → Database → Option TicketRow
unfolding ticket_id_of
joined_ticket r db = elim (ticket_id_of r db) [
  | none ↦ none
  | some id ↦ first (is_ticket id) db.tickets
]

pub record RunAnswer : Type 0 where
  pub run_id : ℕ
  pub status : RunStatus
  pub conclusion_status : Option ConclusionStatus
  pub confidence : Option ℕ
  pub summary_md : Option Text
  pub findings : List Finding
  pub proposed_actions : List Text
  pub ticket : Option Text
  pub ticket_updates : Option ℕ
  pub file : Text
  pub start_offset : ℕ
  pub end_offset : Option ℕ

-- `conclusion.get(…)`, where `conclusion` is `row.conclusion or {}`.
abbrev status_in : Option Conclusion → Option ConclusionStatus
status_in none = none
status_in (some c) = some c.status

abbrev confidence_in : Option Conclusion → Option ℕ
confidence_in none = none
confidence_in (some c) = some c.confidence

abbrev summary_in : Option Conclusion → Option Text
summary_in none = none
summary_in (some c) = some c.summary_md

abbrev findings_in : Option Conclusion → List Finding
findings_in none = []
findings_in (some c) = c.findings

abbrev actions_in : Option Conclusion → List Text
actions_in none = []
actions_in (some c) = c.proposed_actions

abbrev external_id_in : Option TicketRow → Option Text
external_id_in none = none
external_id_in (some t) = some t.external_id

abbrev updates_in : Option TicketRow → Option ℕ
updates_in none = none
updates_in (some t) = some t.update_count

abbrev pub answer_of : RunRow → Option TicketRow → RunAnswer
answer_of r ticket = record {
  run_id = r.run_id;
  status = r.status;
  conclusion_status = status_in r.conclusion;
  confidence = confidence_in r.conclusion;
  summary_md = summary_in r.conclusion;
  findings = findings_in r.conclusion;
  proposed_actions = actions_in r.conclusion;
  ticket = external_id_in ticket;
  ticket_updates = updates_in ticket;
  file = r.audit_log_file;
  start_offset = r.audit_start_offset;
  end_offset = r.audit_end_offset;
}

-- `GET /runs/{fingerprint}`: `none` is the answer 404.
unfoldable pub run_for : Text → Database → Option RunAnswer
unfolding newest joined_ticket
run_for f db = elim (latest_run f db) [
  | none ↦ none
  | some r ↦ some (answer_of r (joined_ticket r db))
]

-- `settings.webhooks`
pub record WebhookSettings (Network : Type 0) : Type 0 where
  pub grafana_secret : Option Text
  pub datadog_secret : Option Text
  pub pagerduty_secret : Option Text
  pub generic_secret : Option Text
  pub alertmanager_allowlist : List Network

-- `reveal`
unfoldable pub reveal : Option Text → Text
reveal none = []
reveal (some secret) = secret

abbrev source_secret : {Network : Type 0} → WebhookSettings Network → EventSource → Text
source_secret webhooks grafana = reveal webhooks.grafana_secret
source_secret webhooks pagerduty = reveal webhooks.pagerduty_secret
source_secret webhooks generic = reveal webhooks.generic_secret
source_secret webhooks _ = []

-- `app_from_env`: the router of the configured application.
unfoldable pub configured_router : {Network : Type 0} → WebhookSettings Network → Router Network
unfolding reveal
configured_router webhooks = record {
  datadog_secret = reveal webhooks.datadog_secret;
  source_secrets = source_secret webhooks;
  alertmanager_allowlist = webhooks.alertmanager_allowlist;
}
