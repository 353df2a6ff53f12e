-- ===== src/System/Stream.antt =====
-- The stream against the table of events, while the receiver works (receiver/repository.py).
use smokejumper.Prelude.{
  ℕ, ◌≡◌, refl, sym, ap, ◌==◌, ◌∙◌, inl, inr, Bool, true, false, none, List, [], ◌∷◌, ◌++◌, Text,
  any, any-append, All-append, arith, if◌then◌else◌,
}
use smokejumper.Contracts.Events.{AgentEvent}
use smokejumper.Persistence.{EventRow}
use smokejumper.Persistence.Table.{update_where, All-update_where, any-update_where}
use smokejumper.Queue.{Attempt, DoesNotStray, Message}
use smokejumper.Receiver.Repository.{
  dedupe_window, has_id, bump, new_row, quarantine, quarantine_row, is_open, shut_window,
  close_window,
}
use smokejumper.Receiver.Repository.Rows.{admit-eq-ok, insert_event-eq-ok}
use smokejumper.Receiver.Repository.Constraints.{keys-update, keys-append}
use smokejumper.Receiver.Delivery.Outbox.{
  IsKeyed, IsPublishedOnce, IsExact, send-IsExact, event_for_queue-eq-ok,
}
use smokejumper.Receiver.Routes.Keeps.{IsKept}

-- An update that keeps a row's id, its stored event and its receipt.
pub record KeepsDelivery (set : EventRow → EventRow) : Type 0 where
  pub same_id : (r : EventRow) → (set r).id ≡ r.id
  pub same_payload : (r : EventRow) → (set r).payload ≡ r.payload
  pub same_receipt : (r : EventRow) → (set r).queue_message_id ≡ r.queue_message_id

module _ (entries : List Message) where
  module _ (test : EventRow → Bool) (set : EventRow → EventRow) (keeps : KeepsDelivery set) where
    pub IsKeyed-set : (b : Bool) (r : EventRow) → IsKeyed r → IsKeyed (if b then set r else r)
    IsKeyed-set false r h = h
    IsKeyed-set true r h =
        λ e stored. h e (sym (keeps.same_payload r) ∙ stored) ∙ sym (keeps.same_id r)

    once-set :
        (b : Bool) (r : EventRow)
        → IsPublishedOnce entries r
        → IsPublishedOnce entries (if b then set r else r)
    once-set false r h = h
    once-set true r h = rw (keeps.same_id r, keeps.same_receipt r) h

    IsExact-update :
        (rows : List EventRow) → IsExact rows entries → IsExact (update_where test set rows) entries
    IsExact-update rows exact = record {
      keyed =
          All-update_where IsKeyed IsKeyed test set (λ r. IsKeyed-set (test r) r) rows exact.keyed;
      keys = keys-update test set keeps.same_id rows exact.keys;
      once =
          All-update_where (IsPublishedOnce entries) (IsPublishedOnce entries) test set
            (λ r. once-set (test r) r) rows exact.once;
      known = λ id absent. exact.known id (
          sym
            (any-update_where (has_id id) test set (λ r. ap (λ k. k == id) (keeps.same_id r)) rows)
          ∙ absent);
    }

  IsExact-append :
      (rows : List EventRow) (r : EventRow)
      → any (has_id r.id) rows ≡ false
      → IsKeyed r
      → r.queue_message_id ≡ none
      → IsExact rows entries
      → IsExact (rows ++ r ∷ []) entries
  IsExact-append rows r fresh filed unsent exact = record {
    keyed = All-append IsKeyed rows (r ∷ []) exact.keyed (filed, tt);
    keys = keys-append rows r fresh exact.keys;
    once =
        All-append (IsPublishedOnce entries) rows (r ∷ []) exact.once
          (rw unsent (exact.known r.id fresh), tt);
    known = λ id absent. exact.known id (ground (arith, any-append (has_id id) rows (r ∷ [])));
  }

pub bump-KeepsDelivery : KeepsDelivery bump
bump-KeepsDelivery = record {
  same_id = λ r. refl;
  same_payload = λ r. refl;
  same_receipt = λ r. refl;
}

pub shut_window-KeepsDelivery : (at : ℕ) → KeepsDelivery (shut_window at)
shut_window-KeepsDelivery at = record {
  same_id = λ r. refl;
  same_payload = λ r. refl;
  same_receipt = λ r. refl;
}

pub new_row-IsKeyed : (e : AgentEvent) → IsKeyed (new_row e)
new_row-IsKeyed e d stored = cc stored

module _ (sha256_hex : Text → Text) (xadd : ℕ → Attempt)
    (safe : (n : ℕ) → DoesNotStray (xadd n)) where
  -- Where no attempt strays, each change of the receiver keeps the stream exact.
  pub IsExact-IsKept : IsKept sha256_hex xadd (λ s. IsExact s.db.events s.redis.entries)
  unfolding quarantine close_window
  IsExact-IsKept = record {
    admitting = λ e s a db exact h. elim (admit-eq-ok dedupe_window e s.db h) [
      | inl (r, _, _, same) ↦
          rw same
            (IsExact-update s.redis.entries (has_id r.id) bump bump-KeepsDelivery s.db.events exact)
      | inr (_, fresh, _, same) ↦ rw same (
          IsExact-append s.redis.entries s.db.events (new_row e) fresh (new_row-IsKeyed e) refl
            exact)
    ];
    quarantining = λ id at source reason s db exact h.
        let row = quarantine_row id source at reason in
        let (fresh, same) = insert_event-eq-ok row s.db h in
        rw same
          (IsExact-append s.redis.entries s.db.events row fresh (λ e stored. cc stored) refl exact);
    closing = λ f at s exact.
        IsExact-update s.redis.entries (is_open f) (shut_window at) (shut_window-KeepsDelivery at)
          s.db.events exact;
    sending = λ event_id now e s db exact found.
        let (r, m, filed, unsent, stored) = event_for_queue-eq-ok sha256_hex event_id s.db found in
        send-IsExact sha256_hex xadd event_id now s e r (safe s.redis.attempts) exact m filed unsent
          stored;
  }
