-- ===== src/Worker.antt =====
-- src/smokejumper/worker.py: from the queue to a ticket and an audit trail.
--
-- The world is what outlives one message. Each answer of the database, the disk, Redis and the clock
-- is a parameter, so a run may fail at any of its awaits.
pub mod Triple
pub mod Effects
pub mod Loop
pub mod Again
pub mod Depth
pub mod Turns
pub mod Promises
pub mod Turned
pub mod Completes
use smokejumper.Prelude.{
  ℕ, ◌+◌, Bool, true, false, Option, none, some, List, [], ◌∷◌, ◌++◌, Text, lit, length, any,
  text_eq, Error, other, Result, ok, err, if◌then◌else◌,
}
use smokejumper.Contracts.Events.{AgentEvent}
use smokejumper.Contracts.Conclusions.{Conclusion, ConclusionStatus, status_value}
use smokejumper.Persistence.{Wire, RunStatus, running, concluded, Database, Tx, begin}
use smokejumper.Queue.{Message}
use smokejumper.Receiver.Repository.{load}
use smokejumper.Actions.{RunClaim, TicketOutcome, open_run, apply, close_run, is_concluded}
use smokejumper.Intelligence.{triage}
use smokejumper.Recorder.{
  Payload, event, transition, action, Disk, AuditEvent, Recorder, record_line, start_offset,
}

pub record World : Type 0 where
  pub db : Database
  pub recorder : Recorder
  pub acked : List Text

-- The n-th transaction of a call finds the database up, or raises before it has changed anything.
pub record Env : Type 0 where
  pub uuid_text : ℕ → Text
  pub isoformat : ℕ → Text
  pub log_file : Text
  pub disk : ℕ → Disk
  pub line_size : AuditEvent → ℕ
  pub clock : ℕ → ℕ
  pub elapsed_ms : ℕ
  pub fresh : ℕ
  pub db_up : ℕ → Bool
  pub ack_up : Bool

-- A coroutine's body: what it has changed stays changed when it raises.
abbrev pub Act : Type 0 → Type 0
Act A = World → Result A × World

abbrev pub pure : {A : Type 0} → A → Act A
pure a w = (ok a, w)

abbrev pub continue : {A B : Type 0} → Result A → (A → Act B) → Act B
continue (ok a) f w = f a w
continue (err e) f w = (err e, w)

infixl 5 ◌>>=◌ ◌>>◌
abbrev pub ◌>>=◌ : {A B : Type 0} → Act A → (A → Act B) → Act B
◌>>=◌ m f w = continue (m w).0 f (m w).1

abbrev pub ◌>>◌ : {A B : Type 0} → Act A → Act B → Act B
m >> k = m >>= λ _. k

-- `async with engine.begin()`
unfoldable pub transaction : {A : Type 0} → Bool → Tx A → Act A
unfolding begin
transaction up m w =
    if up then ((begin m w.db).0, record w { db = (begin m w.db).1 }) else (err other, w)

module _ (env : Env) where
  unfoldable pub record_act : ℕ → ℕ → Text → Payload → Act (ℕ × ℕ)
  unfolding record_line
  record_act now run_id actor payload w =
      let result = record_line env.disk env.line_size now run_id actor payload w.recorder in
      (result.0, record w { recorder = result.1 })

  abbrev transition_of : Conclusion → Payload
  transition_of c = transition c.status c.confidence (length c.findings)

  abbrev action_of : TicketOutcome → Payload
  action_of o = action o.external_id o.created o.update_count o.replayed

  -- `claim.conclusion_status or "concluded"`
  abbrev pub claimed_status : Option ConclusionStatus → Text
  claimed_status none = lit "concluded"
  claimed_status (some s) = status_value s

  -- A run that is not concluded yet.
  unfoldable pub investigate : AgentEvent → Act Text
  investigate e = do
    record_act (env.clock 1) e.id (lit "worker") (event e)
    let c = triage env.uuid_text env.isoformat env.elapsed_ms e (some e.id)
    record_act (env.clock 2) e.id (lit "triage") (transition_of c)
    outcome ← transaction (env.db_up 1) (apply env.fresh (env.clock 3) c)
    (_, end_offset) ← record_act (env.clock 4) e.id (lit "actions") (action_of outcome)
    transaction (env.db_up 2) (close_run e.id concluded (some c) end_offset (env.clock 5))
    pure (status_value c.status)

  unfoldable pub handle : AgentEvent → Act Text
  handle e = do
    claim ← λ w.
        transaction (env.db_up 0)
          (open_run e.id e.id e.fingerprint env.log_file (start_offset w.recorder) (env.clock 0)) w
    if is_concluded claim.status
        then pure (claimed_status claim.conclusion_status)
        else investigate e

  unfoldable pub ack : Text → Act (Unit {0})
  ack message_id w =
      if env.ack_up then (ok tt, record w { acked = message_id ∷ w.acked }) else (err other, w)

  -- The `except` around `handle`: a failure is logged, and the message left pending.
  abbrev pub settle : Text → Result Text → Act (Unit {0})
  settle message_id (ok status) w = ack message_id w
  settle message_id (err error) w = (ok tt, w)

  unfoldable pub process_event : Text → AgentEvent → Act (Unit {0})
  process_event message_id e w = settle message_id (handle e w).0 (handle e w).1

  -- An event that does not load is acknowledged unprocessed.
  abbrev pub process_loaded : Text → Result AgentEvent → Act (Unit {0})
  process_loaded message_id (ok e) = process_event message_id e
  process_loaded message_id (err error) = ack message_id

module _ (sha256_hex : Text → Text) (env : Env) where
  unfoldable pub process : Message → Act (Unit {0})
  process m = elim m.event [
    | none ↦ ack env m.id
    | some raw ↦ process_loaded env m.id (load sha256_hex raw)
  ]
