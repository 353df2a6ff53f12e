-- ===== src/Receiver/Delivery.antt =====
-- src/smokejumper/receiver/delivery.py: the outbox, from admitted rows to the stream.
pub mod Outbox
pub mod Receipts
pub mod Loop
pub mod Backlog
pub mod Drain
use smokejumper.Prelude.{
  ℕ, ◌+◌, Option, none, some, List, [], ◌∷◌, ◌++◌, Text, lit, length, Result, ok, err, other,
  if◌then◌else◌,
}
use smokejumper.Contracts.Events.{AgentEvent}
use smokejumper.Persistence.{Database}
use smokejumper.Queue.{Attempt, Redis, commits, publish}
use smokejumper.Receiver.Repository.{
  event_for_queue, mark_queued, pending_queue_event_ids, pending_queue_count,
}

-- The database and the stream: what outlives a request.
pub record Store : Type 0 where
  pub db : Database
  pub redis : Redis

module _ (sha256_hex : Text → Text) (xadd : ℕ → Attempt) where
  -- The XADD inside the transaction: a failure, before or after Redis has answered, rolls the
  -- transaction back, not the stream.
  unfoldable pub send : ℕ → ℕ → AgentEvent → Store → Result (Option Text) × Store
  unfolding publish
  send event_id now e s =
      let (answer, redis) = publish xadd e s.redis in
      elim answer [
        | ok message_id ↦
            if commits (xadd s.redis.attempts)
            then (
              ok (some message_id),
              record { db = mark_queued event_id message_id now s.db; redis = redis },
            )
            else (err other, record s { redis = redis })
        | err error ↦ (err error, record s { redis = redis })
      ]

  unfoldable pub dispatch_event : ℕ → ℕ → Store → Result (Option Text) × Store
  unfolding send
  dispatch_event event_id now s = elim (event_for_queue sha256_hex event_id s.db) [
    | err error ↦ (err error, s)
    | ok (none, _) ↦ (ok none, s)
    | ok (some (e, some message_id), _) ↦ (ok (some message_id), s)
    | ok (some (e, none), _) ↦ send event_id now e s
  ]

  -- The `for` loop of `dispatch_pending`: an exception leaves the loop.
  unfoldable pub dispatch_all : List ℕ → ℕ → Store → Result (Unit {0}) × Store
  unfolding dispatch_event
  dispatch_all [] now s = (ok tt, s)
  dispatch_all (event_id ∷ ids) now s =
      let (answer, s') = dispatch_event event_id now s in
      elim answer [ ok _ ↦ dispatch_all ids now s' | err error ↦ (err error, s') ]

  unfoldable pub dispatch_pending : ℕ → ℕ → Store → Result ℕ × Store
  unfolding dispatch_all
  dispatch_pending limit now s =
      let ids = pending_queue_event_ids limit s.db in
      let (answer, s') = dispatch_all ids now s in
      elim answer [ ok _ ↦ (ok (length ids), s') | err error ↦ (err error, s') ]

unfoldable pub pending_count : Database → ℕ
pending_count = pending_queue_count

-- A task of the event loop: still running, or how it ended.
pub data Task : Type 0 where
  running cancelled returned : Task
  raised : Text → Task

-- `OutboxHandle.status`
unfoldable pub status : Task → Text
status running = lit "ok"
status cancelled = lit "dead: cancelled"
status returned = lit "dead: exited"
status (raised name) = lit "dead: " ++ name
