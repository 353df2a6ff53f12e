-- ===== src/Receiver/Delivery/Receipts.antt =====
-- What a dispatch of receiver/delivery.py answers, against the receipts on record.
use mathlib.Core.List.{Memᴰ}
use smokejumper.Prelude.{
  ℕ, ◌≡◌, refl, sym, ap, ◌∙◌, true, Bool, Option, none, some, List, [], ◌∷◌, Text, Result, ok, err,
  arith,
}
use smokejumper.Contracts.Events.{AgentEvent}
use smokejumper.Persistence.{EventRow, Database}
use smokejumper.Persistence.Table.{update_where}
use smokejumper.Queue.{Attempt, sent, refused, lost, unreceipted, publish, commits}
use smokejumper.Receiver.Repository.{event_for_queue, mark_queued, lacks_receipt, with_receipt}
use smokejumper.Receiver.Delivery.{Store, send, dispatch_event}
use smokejumper.Receiver.Delivery.Outbox.{event_for_queue-eq-ok}

-- A row with this id has this receipt, if there is one.
abbrev pub IsReceipted : ℕ → Option Text → List EventRow → Type 0
IsReceipted event_id none rows = Unit
IsReceipted event_id (some m) rows =
    (r : EventRow) × Memᴰ r rows × (r.id ≡ event_id) × (r.queue_message_id ≡ some m)

updated_mem :
    (test : EventRow → Bool) (set : EventRow → EventRow) (rows : List EventRow) (r : EventRow)
    → test r ≡ true
    → Memᴰ r rows
    → Memᴰ (set r) (update_where test set rows)
updated_mem test set [] r passes m = elim m [ ]
updated_mem test set (s ∷ rows) r passes (Memᴰ.head same) =
    let tested : test s ≡ true = ap test (sym same) ∙ passes in Memᴰ.head (rw tested (ap set same))
updated_mem test set (s ∷ rows) r passes (Memᴰ.tail m) =
    Memᴰ.tail (updated_mem test set rows r passes m)

module _ (sha256_hex : Text → Text) (xadd : ℕ → Attempt) (event_id now : ℕ) (s : Store) where
  sent-IsReceipted :
      (e : AgentEvent) (r : EventRow) (m : Text)
      → Memᴰ r s.db.events
      → r.id ≡ event_id
      → r.queue_message_id ≡ none
      → (send sha256_hex xadd event_id now e s).0 ≡ ok (some m)
      → IsReceipted event_id (some m) (send sha256_hex xadd event_id now e s).1.db.events
  unfolding send publish mark_queued
  sent-IsReceipted e r m mem filed pending answered = go (xadd s.redis.attempts) refl
    where
      go :
          (attempt : Attempt)
          → xadd s.redis.attempts ≡ attempt
          → IsReceipted event_id (some m) (send sha256_hex xadd event_id now e s).1.db.events
      go (sent m') h =
          let lacking : lacks_receipt event_id r ≡ true = ground arith in
          let same : m' ≡ m = cc (rw (h, send, publish, commits) at answered) in
          rw (h, send, publish)
            (rw (h, commits)
              (
                with_receipt m' now r,
                updated_mem (lacks_receipt event_id) (with_receipt m' now) s.db.events r lacking
                    mem,
                filed,
                ap some same,
              ))
      go refused h = cc (rw (h, send, publish, commits) at answered)
      go (lost m') h = cc (rw (h, send, publish, commits) at answered)
      go (unreceipted m') h = cc (rw (h, send, publish, commits) at answered)

  -- An id that a dispatch returns is the receipt of a row with the event's id.
  pub dispatch_event-IsReceipted :
      (message_id : Option Text)
      → (dispatch_event sha256_hex xadd event_id now s).0 ≡ ok message_id
      → IsReceipted event_id message_id (dispatch_event sha256_hex xadd event_id now s).1.db.events
  unfolding dispatch_event
  dispatch_event-IsReceipted none answered = tt
  dispatch_event-IsReceipted (some m) answered = go (event_for_queue sha256_hex event_id s.db) refl
    where
      go :
          (found : Result (Option (AgentEvent × Option Text) × Database))
          → event_for_queue sha256_hex event_id s.db ≡ found
          → IsReceipted event_id
              (some m)
              (dispatch_event sha256_hex xadd event_id now s).1.db.events
      go (err error) h = cc (rw (h, dispatch_event) at answered)
      go (ok (none, _)) h = cc (rw (h, dispatch_event) at answered)
      go (ok (some (e, some m'), _)) h =
          let (r, mem, filed, receipt, _) = event_for_queue-eq-ok sha256_hex event_id s.db h in
          let same : m' ≡ m = cc (rw (h, dispatch_event) at answered) in
          rw (h, dispatch_event) (r, mem, filed, receipt ∙ ap some same)
      go (ok (some (e, none), _)) h =
          let (r, mem, filed, pending, _) = event_for_queue-eq-ok sha256_hex event_id s.db h in
          rw (h, dispatch_event)
            (sent-IsReceipted e r m mem filed pending (rw (h, dispatch_event) at answered))
