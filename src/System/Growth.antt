-- ===== src/System/Growth.antt =====
-- The stream and the ledger of actions while the receiver works: neither gets shorter
-- (queue/producer.py, receiver/repository.py).
use mathlib.Core.List.Memᴰ
use mathlib.Core.List.{Memᴰ}
use smokejumper.Prelude.{ℕ, ◌≡◌, refl, inl, inr, Text, List}
use smokejumper.Contracts.Events.{AgentEvent}
use smokejumper.Queue.{Attempt, sent, refused, lost, unreceipted, Message, publish, append_reply}
use smokejumper.Actions.Books.{KeepsActions}
use smokejumper.Receiver.Repository.{
  dedupe_window, quarantine, quarantine_row, close_window, mark_queued,
}
use smokejumper.Receiver.Repository.Rows.{admit-eq-ok, insert_event-eq-ok}
use smokejumper.Receiver.Delivery.{Store, send}
use smokejumper.Receiver.Routes.Keeps.{IsKept}
use smokejumper.Receiver.Routes.Invariants.{send-db}

-- From one store to a later one.
pub record Grows (s s' : Store) : Type 0 where
  pub appended : (m : Message) → Memᴰ m s.redis.entries → Memᴰ m s'.redis.entries
  pub longer : KeepsActions s.db s'.db

append_reply-Memᴰ :
    (reply : Attempt) (e : AgentEvent) (entries : List Message) (m : Message)
    → Memᴰ m entries
    → Memᴰ m (append_reply reply e entries)
append_reply-Memᴰ (sent id) e entries m here = Memᴰ.append_left _ here
append_reply-Memᴰ refused e entries m here = here
append_reply-Memᴰ (lost id) e entries m here = Memᴰ.append_left _ here
append_reply-Memᴰ (unreceipted id) e entries m here = Memᴰ.append_left _ here

module _ (sha256_hex : Text → Text) (xadd : ℕ → Attempt) where
  send-redis :
      (event_id now : ℕ) (e : AgentEvent) (s : Store)
      → (send sha256_hex xadd event_id now e s).1.redis ≡ (publish xadd e s.redis).1
  unfolding send
  send-redis event_id now e s = by_reply (xadd s.redis.attempts) refl
    where
      by_reply :
          (reply : Attempt)
          → xadd s.redis.attempts ≡ reply
          → (send sha256_hex xadd event_id now e s).1.redis ≡ (publish xadd e s.redis).1
      by_reply (sent m) h = rw (h, send, publish) (rw (h, publish) refl)
      by_reply refused h = rw (h, send, publish) (rw (h, publish) refl)
      by_reply (lost m) h = rw (h, send, publish) (rw (h, publish) refl)
      by_reply (unreceipted m) h = rw (h, send, publish) (rw (h, publish) refl)

  -- However Redis answers.
  pub Grows-IsKept : (start : Store) → IsKept sha256_hex xadd (Grows start)
  unfolding close_window mark_queued quarantine publish
  Grows-IsKept start = record {
    admitting = λ e s a db g h. record {
      appended = g.appended;
      longer = elim (admit-eq-ok dedupe_window e s.db h) [
        | inl (_, _, _, same) ↦ rw same g.longer
        | inr (_, _, _, same) ↦ rw same g.longer
      ];
    };
    quarantining = λ id at source reason s db g h. record {
      appended = g.appended;
      longer =
          let (_, same) = insert_event-eq-ok (quarantine_row id source at reason) s.db h in
          rw same g.longer;
    };
    closing = λ f at s g. record { appended = g.appended; longer = g.longer };
    sending = λ id now e s db g _. record {
      appended = λ m here.
          rw (send-redis id now e s)
            (append_reply-Memᴰ (xadd s.redis.attempts) e s.redis.entries m (g.appended m here));
      longer = send-db sha256_hex xadd (KeepsActions start.db) id now e s (λ m. g.longer) g.longer;
    };
  }
