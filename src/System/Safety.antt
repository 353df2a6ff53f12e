-- ===== src/System/Safety.antt =====
-- What holds in every state that the composed service reaches.
use smokejumper.Prelude.{ℕ, ◌≡◌}
use smokejumper.Queue.{Attempt, DoesNotStray}
use smokejumper.Actions.Runs.{IsSound}
use smokejumper.Receiver.Repository.{dedupe_window}
use smokejumper.Receiver.Repository.Constraints.{IsValid}
use smokejumper.Receiver.Repository.Spacing.{IsSpaced}
use smokejumper.Receiver.Delivery.Outbox.{IsExact}
use smokejumper.Receiver.Routes.{Libraries, Router}
use smokejumper.Receiver.Routes.Invariants.{IsOrderly, IsValid-IsKept, IsSpaced-IsKept}
use smokejumper.Worker.Turns.{idle}
use smokejumper.System.{System, store_of, Reach}
use smokejumper.System.Stream.{IsExact-IsKept}
use smokejumper.System.Execution.{idle-IsSteady, Reach-IsSteady, reach_keeps}

-- An attempt at delivery ends in any way: its answer may be lost, its receipt may fail.
abbrev pub Anything : (ℕ → Attempt) → Type 0
Anything xadd = Unit

-- No answer of Redis is lost, and no receipt fails after its answer: an attempt that fails has
-- appended nothing.
abbrev pub NoStray : (ℕ → Attempt) → Type 0
NoStray xadd = (n : ℕ) → DoesNotStray (xadd n)

module _ {Address Network : Type 0} (lib : Libraries Address Network)
    (router : Router Network) where
  -- In whatever order requests, their single transactions, offers of the outbox and the worker's
  -- effects follow each other, whatever fails in each, and wherever the worker is stopped: from an
  -- idle worker and a state in which the table of events is valid, open events of one fingerprint
  -- are the dedupe window apart, and the books of the tickets and runs are sound, every reachable
  -- state has such tables.
  pub Reach-IsOrderly :
      {start stop : System}
      → Reach lib router Anything start stop
      → IsOrderly (store_of start)
      → IsSound start.db
      → start.worker ≡ idle
      → IsOrderly (store_of stop) × IsSound stop.db
  Reach-IsOrderly {start = start} reached (valid, spaced) sound at_rest =
      let steady = idle-IsSteady lib.sha256_hex start sound at_rest in
      (
        (
          reach_keeps lib router Anything tt (λ rows _. IsValid rows)
              (λ xadd _. IsValid-IsKept lib.sha256_hex xadd) reached steady valid,
          reach_keeps lib router Anything tt (λ rows _. IsSpaced dedupe_window rows)
              (λ xadd _. IsSpaced-IsKept lib.sha256_hex xadd) reached steady spaced,
        ),
        (Reach-IsSteady lib router Anything tt reached steady).0,
      )

  -- From sound books and an idle worker, and if no answer of Redis is lost and no receipt fails
  -- after its answer, every execution keeps it exact that each stored event is filed under its own id, ids are distinct, and the stream
  -- holds one entry for each event with a receipt, none for one without, and none for an id without
  -- a row.
  pub Reach-IsExact :
      {start stop : System}
      → Reach lib router NoStray start stop
      → IsSound start.db
      → start.worker ≡ idle
      → IsExact start.db.events start.redis.entries
      → IsExact stop.db.events stop.redis.entries
  Reach-IsExact {start = start} reached sound at_rest exact =
      reach_keeps lib router NoStray (λ n. (λ m e. cc e, λ m e. cc e))
        (λ rows redis. IsExact rows redis.entries)
        (λ xadd safe. IsExact-IsKept lib.sha256_hex xadd safe) reached
        (idle-IsSteady lib.sha256_hex start sound at_rest) exact
