-- ===== src/Receiver/Routes/Invariants.antt =====
-- What a delivery does to the tables, whatever fails on the way (receiver/routes.py).
use smokejumper.Prelude.{ℕ, ◌≡◌, refl, inl, inr, Bool-cases, Text, Result, ok, err}
use smokejumper.Contracts.Events.{EventSource, AgentEvent}
use smokejumper.Persistence.{Database}
use smokejumper.Queue.{Attempt, commits, publish}
use smokejumper.Receiver.Repository.{dedupe_window, mark_queued}
use smokejumper.Receiver.Repository.Constraints.{
  IsValid, admit-IsValid, quarantine-IsValid, mark_queued-IsValid, close_window-IsValid,
}
use smokejumper.Receiver.Repository.Spacing.{
  IsSpaced, admit-IsSpaced, quarantine-IsSpaced, mark_queued-IsSpaced, close_window-IsSpaced,
}
use smokejumper.Receiver.Delivery.{Store, send}
use smokejumper.Receiver.Routes.Keeps.{IsKept, datadog_webhook-Keeps, handler-Keeps}
use smokejumper.Receiver.Routes.{Libraries, Router, Request, Outside, datadog_webhook, handler}

module _ (sha256_hex : Text → Text) (xadd : ℕ → Attempt) where
  -- A dispatch that sends touches the tables by its receipt, if at all.
  pub send-db :
      (I : Database → Type 0) (event_id now : ℕ) (e : AgentEvent) (s : Store)
      → ((m : Text) → I (mark_queued event_id m now s.db))
      → I s.db
      → I (send sha256_hex xadd event_id now e s).1.db
  unfolding send
  send-db I event_id now e s marked i = by_answer (publish xadd e s.redis).0 refl
    where
      by_answer :
          (r : Result Text)
          → (publish xadd e s.redis).0 ≡ r
          → I (send sha256_hex xadd event_id now e s).1.db
      by_answer (ok m) h = elim (Bool-cases (commits (xadd s.redis.attempts))) [
        | inl committed ↦ rw (h, committed, send, publish) (marked m)
        | inr rolled_back ↦ rw (h, rolled_back, send, publish) i
      ]
      by_answer (err error) h = rw (h, send, publish) i

  pub IsValid-IsKept : IsKept sha256_hex xadd (λ s. IsValid s.db.events)
  IsValid-IsKept = record {
    admitting = λ e s a db v h. admit-IsValid dedupe_window e s.db v h;
    quarantining = λ id at source reason s db v h. quarantine-IsValid id at source reason s.db v h;
    closing = λ f at s. close_window-IsValid f at s.db;
    sending = λ id now e s db v _.
        send-db (λ d. IsValid d.events) id now e s (λ m. mark_queued-IsValid id now m s.db v) v;
  }

  pub IsSpaced-IsKept : IsKept sha256_hex xadd (λ s. IsSpaced dedupe_window s.db.events)
  IsSpaced-IsKept = record {
    admitting = λ e s a db v h. admit-IsSpaced dedupe_window e s.db v h;
    quarantining = λ id at source reason s db v h.
        quarantine-IsSpaced dedupe_window id at source reason s.db v h;
    closing = λ f at s v. close_window-IsSpaced dedupe_window at f s.db v;
    sending = λ id now e s db v _.
        send-db (λ d. IsSpaced dedupe_window d.events) id now e s
          (λ m. mark_queued-IsSpaced dedupe_window id now m s.db v) v;
  }

-- The two claims about the table of events that a request may not break.
abbrev pub IsOrderly : Store → Type 0
IsOrderly s = IsValid s.db.events × IsSpaced dedupe_window s.db.events

module _ {Address Network : Type 0} (lib : Libraries Address Network) (router : Router Network)
    (out : Outside) (reason : Text) (request : Request) (s : Store) (orderly : IsOrderly s) where
  -- A Datadog request, whatever it holds and whichever of its transactions and dispatches fail,
  -- keeps the constraints of the table of events, and the open events of each fingerprint at
  -- least the dedupe window apart.
  datadog_webhook-IsOrderly : IsOrderly (datadog_webhook lib router out reason request s).1
  datadog_webhook-IsOrderly = (
    datadog_webhook-Keeps (λ s. IsValid s.db.events) lib out
        (IsValid-IsKept lib.sha256_hex out.xadd) router reason request s orderly.0,
    datadog_webhook-Keeps (λ s. IsSpaced dedupe_window s.db.events) lib out
        (IsSpaced-IsKept lib.sha256_hex out.xadd) router reason request s orderly.1,
  )

  -- A request to one of the other routes, whatever it holds and also where a batch fails half
  -- way, keeps the constraints of the table of events, and the open events of each fingerprint at
  -- least the dedupe window apart.
  pub handler-IsOrderly :
      (source : EventSource) → IsOrderly (handler lib router out source reason request s).1
  handler-IsOrderly source = (
    handler-Keeps (λ s. IsValid s.db.events) lib out (IsValid-IsKept lib.sha256_hex out.xadd) router
        source reason request s orderly.0,
    handler-Keeps (λ s. IsSpaced dedupe_window s.db.events) lib out
        (IsSpaced-IsKept lib.sha256_hex out.xadd) router source reason request s orderly.1,
  )
