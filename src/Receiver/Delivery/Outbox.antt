-- ===== src/Receiver/Delivery/Outbox.antt =====
-- The outbox contract of receiver/delivery.py: what a dispatch does to the row and to the stream.
use mathlib.Core.List.{Memᴰ}
use mathlib.Core.Bool.{false≢true}
use smokejumper.Prelude.{
  ℕ, ◌≡◌, ◌≢◌, ◌⊎◌, inl, inr, ◌∙◌, refl, ap, sym, subst, Bool, true, false, Option, none, some,
  List, [], ◌∷◌, ◌++◌, arith, is_none, not, ◌&&◌, All, All-mem, All-imp, All-and, any, any_of_mem,
  ==_refl, Text, Result, ok, err, >>=-eq-ok, Option-cases, if◌then◌else◌,
}
use smokejumper.Contracts.Events.{AgentEvent, model_validate}
use smokejumper.Persistence.{Wire, dumped, junk, EventRow, Database}
use smokejumper.Persistence.Table.{first, All-update_where, first-mem, any-update_where}
use smokejumper.Queue.{
  Attempt, sent, refused, lost, unreceipted, DoesNotStray, Message, message, publish, copies,
  copies-append,
}
use smokejumper.Receiver.Repository.{
  has_id, event_for_queue, load_column, mark_queued, lacks_receipt, with_receipt,
}
use smokejumper.Receiver.Repository.Dedupe.{HasDistinctIds}
use smokejumper.Receiver.Repository.Constraints.{keys-update}
use smokejumper.Receiver.Delivery.{Store, send, dispatch_event}

-- A stored event is filed under its own id.
abbrev pub IsKeyed : EventRow → Type 0
IsKeyed r = (e : AgentEvent) → r.payload ≡ some (dumped e) → e.id ≡ r.id

-- One entry of the stream for each row with a receipt, and none for a row without.
abbrev pub IsPublishedOnce : List Message → EventRow → Type 0
IsPublishedOnce entries r = copies r.id entries ≡ (if is_none r.queue_message_id then 0 else 1)

pub record IsExact (rows : List EventRow) (entries : List Message) : Type 0 where
  pub keyed : All IsKeyed rows
  pub keys : HasDistinctIds rows
  pub once : All (IsPublishedOnce entries) rows
  pub known : (id : ℕ) → any (has_id id) rows ≡ false → copies id entries ≡ 0

-- A key names one row.
pub same_row :
    (rows : List EventRow) (r : EventRow)
    → HasDistinctIds rows
    → Memᴰ r rows
    → All (λ (q : EventRow). q.id ≡ r.id → q.queue_message_id ≡ r.queue_message_id) rows
same_row [] r d m = tt
same_row (s ∷ rows) r (d, ds) (Memᴰ.head e) = (
  λ _. ap (λ (x : EventRow). x.queue_message_id) (sym e),
  All-imp (λ (t : EventRow). t.id ≢ s.id)
      (λ (q : EventRow). q.id ≡ r.id → q.queue_message_id ≡ r.queue_message_id)
      (λ t apart same. absurd (apart (same ∙ ap (λ (x : EventRow). x.id) e))) rows d,
)
same_row (s ∷ rows) r (d, ds) (Memᴰ.tail m) = (
  λ same. absurd (All-mem (λ (t : EventRow). t.id ≢ s.id) rows d m (sym same)),
  same_row rows r ds m,
)

module _ (sha256_hex : Text → Text) where
  pub model_validate-eq-ok :
      (e : AgentEvent) {v : AgentEvent} → model_validate sha256_hex e ≡ ok v → v ≡ e
  unfolding model_validate
  model_validate-eq-ok e h = ground arith

  load_column-eq-ok :
      (c : Option Wire) {e : AgentEvent} → load_column sha256_hex c ≡ ok e → c ≡ some (dumped e)
  unfolding load_column
  load_column-eq-ok none h = cc
  load_column-eq-ok (some (junk t)) h = cc
  load_column-eq-ok (some (dumped e)) h = ap (λ x. some (dumped x)) (sym (model_validate-eq-ok e h))

  -- What the locked SELECT returns: a row with the id, its stored event and its receipt.
  pub event_for_queue-eq-ok :
      (event_id : ℕ) (db : Database) {e : AgentEvent} {receipt : Option Text} {db' : Database}
      → event_for_queue sha256_hex event_id db ≡ ok (some (e, receipt), db')
      → (r : EventRow) × Memᴰ r db.events
        × (r.id ≡ event_id)
        × (r.queue_message_id ≡ receipt)
        × (r.payload ≡ some (dumped e))
  unfolding event_for_queue
  event_for_queue-eq-ok event_id db h =
      elim (Option-cases (first (λ r. has_id event_id r && not r.quarantined) db.events)) [
        | inl missed ↦ cc (rw (missed, event_for_queue) at h)
        | inr (r, found) ↦
            let (m, passes) =
              first-mem (λ r. has_id event_id r && not r.quarantined) db.events r found in
            let (loaded, read, answer) = >>=-eq-ok _ _ (rw (found, event_for_queue) at h) in
            (r, m, ground arith, ground arith, load_column-eq-ok r.payload (read ∙ ground arith))
      ]

module _ (sha256_hex : Text → Text) (xadd : ℕ → Attempt) where
  -- A dispatch does nothing, or sends the event of a row that has no receipt.
  pub dispatch_event-cases :
      (event_id now : ℕ) (s : Store)
      → ((dispatch_event sha256_hex xadd event_id now s).1 ≡ s)
        ⊎ ((e : AgentEvent) × (db' : Database) × (event_for_queue sha256_hex event_id s.db
              ≡ ok (some (e, none), db'))
            × (dispatch_event sha256_hex xadd event_id now s
                ≡ send sha256_hex xadd event_id now e s))
  unfolding dispatch_event
  dispatch_event-cases event_id now s = go (event_for_queue sha256_hex event_id s.db) refl
    where
      go :
          (found : Result (Option (AgentEvent × Option Text) × Database))
          → event_for_queue sha256_hex event_id s.db ≡ found
          → ((dispatch_event sha256_hex xadd event_id now s).1 ≡ s)
            ⊎ ((e : AgentEvent) × (db' : Database) × (event_for_queue sha256_hex event_id s.db
                  ≡ ok (some (e, none), db'))
                × (dispatch_event sha256_hex xadd event_id now s
                    ≡ send sha256_hex xadd event_id now e s))
      go (err error) h = inl (rw (h, dispatch_event))
      go (ok (none, _)) h = inl (rw (h, dispatch_event))
      go (ok (some (e, some m), _)) h = inl (rw (h, dispatch_event))
      go (ok (some (e, none), db')) h = inr (e, db', h, rw (h, dispatch_event))

-- One row, when the event of the row `event_id` has just been appended and receipted.
published_row :
    (event_id now : ℕ) (m : Text) (e : AgentEvent) (entries : List Message) (q : EventRow)
    → e.id ≡ event_id
    → IsPublishedOnce entries q × (q.id ≡ event_id → q.queue_message_id ≡ none)
    → IsPublishedOnce
        (entries ++ message m e ∷ [])
        (if lacks_receipt event_id q then with_receipt m now q else q)
published_row event_id now m e entries q same (once, pending) =
    ground (arith, copies-append q.id entries (message m e))

receipted_row :
    (test : Bool) (m : Text) (now : ℕ) (q : EventRow)
    → IsKeyed q
    → IsKeyed (if test then with_receipt m now q else q)
receipted_row true m now q h = h
receipted_row false m now q h = h

-- An id that no row has is not the one that was published.
stranger :
    (id event_id : ℕ) (m : Text) (e : AgentEvent) (r : EventRow) (rows : List EventRow)
    (entries : List Message)
    → r.id ≡ event_id
    → e.id ≡ event_id
    → any (has_id id) rows ≡ false
    → any (has_id r.id) rows ≡ true
    → copies id entries ≡ 0
    → copies id (entries ++ message m e ∷ []) ≡ 0
stranger id event_id m e r rows entries filed carried absent here zero_copies =
    let other_id : id ≢ r.id =
      λ same. false≢true (sym absent ∙ subst (λ k. any (has_id k) rows ≡ true) (sym same) here) in
    ground (arith, copies-append id entries (message m e))

-- The receipt and the entry that it belongs to, together.
receipt-IsExact :
    (event_id now : ℕ) (m : Text) (e : AgentEvent) (r : EventRow) (db : Database)
    (entries : List Message)
    → IsExact db.events entries
    → Memᴰ r db.events
    → r.id ≡ event_id
    → r.queue_message_id ≡ none
    → r.payload ≡ some (dumped e)
    → IsExact (mark_queued event_id m now db).events (entries ++ message m e ∷ [])
unfolding mark_queued
receipt-IsExact event_id now m e r db entries exact mem filed pending payload =
    let carried : e.id ≡ event_id = All-mem IsKeyed db.events exact.keyed mem e payload ∙ filed in
    let unsent =
      All-imp (λ (q : EventRow). q.id ≡ r.id → q.queue_message_id ≡ r.queue_message_id)
        (λ (q : EventRow). q.id ≡ event_id → q.queue_message_id ≡ none)
        (λ q same here. same (here ∙ sym filed) ∙ pending) db.events
        (same_row db.events r exact.keys mem) in
    record {
      keyed =
          All-update_where IsKeyed IsKeyed (lacks_receipt event_id) (with_receipt m now)
            (λ q h. receipted_row (lacks_receipt event_id q) m now q h) db.events exact.keyed;
      keys =
          keys-update (lacks_receipt event_id) (with_receipt m now) (λ q. refl) db.events
            exact.keys;
      once =
          All-update_where _ (IsPublishedOnce (entries ++ message m e ∷ []))
            (lacks_receipt event_id) (with_receipt m now)
            (λ q h. published_row event_id now m e entries q carried h) db.events
            (All-and _ _ db.events exact.once unsent);
      known = λ id absent.
          let before =
            sym (
              any-update_where (has_id id) (lacks_receipt event_id) (with_receipt m now) (λ q. refl)
                db.events)
            ∙ absent in
          let here = any_of_mem (has_id r.id) db.events mem (==_refl r.id) in
          stranger id event_id m e r db.events entries filed carried before here
            (exact.known id before);
    }

module _ (sha256_hex : Text → Text) (xadd : ℕ → Attempt) (event_id now : ℕ) (s : Store) where
  pub send-IsExact :
      (e : AgentEvent) (r : EventRow)
      → DoesNotStray (xadd s.redis.attempts)
      → IsExact s.db.events s.redis.entries
      → Memᴰ r s.db.events
      → r.id ≡ event_id
      → r.queue_message_id ≡ none
      → r.payload ≡ some (dumped e)
      → (let s' = (send sha256_hex xadd event_id now e s).1 in
          IsExact s'.db.events s'.redis.entries)
  unfolding send
  send-IsExact e r safe exact mem filed pending payload = go (xadd s.redis.attempts) refl
    where
      go :
          (reply : Attempt)
          → xadd s.redis.attempts ≡ reply
          → (let s' = (send sha256_hex xadd event_id now e s).1 in
              IsExact s'.db.events s'.redis.entries)
      go (sent m) h =
          rw (h, send, publish)
            (rw (h, publish)
              (receipt-IsExact event_id now m e r s.db s.redis.entries exact mem filed pending
                payload))
      go refused h = rw (h, send, publish) (rw (h, publish) exact)
      go (lost m) h = absurd (safe.0 m h)
      go (unreceipted m) h = absurd (safe.1 m h)

  -- If the answer of Redis to the next XADD is not lost and the receipt does not fail after it, a
  -- dispatch of any event keeps it exact
  -- that each stored event is filed under its own id, ids are distinct, and the stream holds one
  -- entry for each event with a receipt, none for one without, and none for an id without a row.
  dispatch_event-IsExact :
      DoesNotStray (xadd s.redis.attempts)
      → IsExact s.db.events s.redis.entries
      → (let s' = (dispatch_event sha256_hex xadd event_id now s).1 in
          IsExact s'.db.events s'.redis.entries)
  dispatch_event-IsExact safe exact = elim (dispatch_event-cases sha256_hex xadd event_id now s) [
    | inl same ↦ rw same exact
    | inr (e, db', read, sends) ↦
        let (r, m, filed, pending, payload) = event_for_queue-eq-ok sha256_hex event_id s.db read in
        rw sends (send-IsExact e r safe exact m filed pending payload)
  ]
