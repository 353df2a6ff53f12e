-- ===== src/System/Lifecycle.antt =====
-- An abstract view of one event, and how the composed service follows it.
use smokejumper.Prelude.{
  ℕ, ◌≡◌, refl, inl, inr, ◌⊎◌, Bool, true, Bool-cases, Option, none, some, List, [], ◌∷◌, ◌++◌,
  Text, arith,
}
use smokejumper.Persistence.{EventRow}
use smokejumper.Persistence.Table.{first, update_where}
use smokejumper.Queue.{Attempt}
use smokejumper.Actions.Runs.{IsSound}
use smokejumper.Receiver.Repository.{
  dedupe_window, has_id, bump, new_row, quarantine, quarantine_row, is_open, shut_window,
  close_window, lacks_receipt, with_receipt, mark_queued,
}
use smokejumper.Receiver.Repository.Rows.{admit-eq-ok, insert_event-eq-ok}
use smokejumper.Receiver.Routes.{Libraries, Router}
use smokejumper.Receiver.Routes.Keeps.{IsKept}
use smokejumper.Receiver.Routes.Invariants.{send-db}
use smokejumper.Worker.Turns.{idle}
use smokejumper.System.{System, Reach}
use smokejumper.System.Execution.{idle-IsSteady, reach_keeps}
use smokejumper.System.Safety.{Anything}

-- An id is unknown, stored, or published under an id of the stream.
pub data Phase : Type 0 where
  unknown stored : Phase
  published : Text → Phase

-- The specification: an id is stored once, published once, and nothing is taken back.
pub data Follows : Phase → Phase → Type 0 where
  unchanged : (p : Phase) → Follows p p
  storing : {p : Phase} → Follows p unknown → Follows p stored
  publishing : {p : Phase} (message_id : Text) → Follows p stored → Follows p (published message_id)

abbrev row_phase : Option EventRow → Phase
row_phase none = unknown
row_phase (some r) = elim r.queue_message_id [ none ↦ stored | some m ↦ published m ]

-- The abstraction: what the table of events says of an id.
abbrev pub phase : ℕ → List EventRow → Phase
phase id rows = row_phase (first (has_id id) rows)

module _ (id : ℕ) where
  -- A new row.
  append_phase :
      (p : Phase) (rows : List EventRow) (r : EventRow)
      → r.queue_message_id ≡ none
      → Follows p (phase id rows)
      → Follows p (phase id (rows ++ r ∷ []))
  append_phase p [] r unsent f = elim (Bool-cases (has_id id r)) [
    | inl here ↦ rw here (rw unsent (storing f))
    | inr other ↦ rw other f
  ]
  append_phase p (s ∷ rows) r unsent f = elim (Bool-cases (has_id id s)) [
    | inl here ↦ rw here (rw here at f)
    | inr other ↦ rw other (append_phase p rows r unsent (rw other at f))
  ]

  -- The row in front, and the row in its place: the same, or receipted where it had no receipt.
  front_phase :
      (p : Phase) (m : Text) (r r' : EventRow) (rows rows' : List EventRow)
      → r'.id ≡ r.id
      → ((r'.queue_message_id ≡ r.queue_message_id)
          ⊎ ((r.queue_message_id ≡ none) × (r'.queue_message_id ≡ some m)))
      → (Follows p (phase id rows) → Follows p (phase id rows'))
      → Follows p (phase id (r ∷ rows))
      → Follows p (phase id (r' ∷ rows'))
  front_phase p m r r' rows rows' same_id receipts behind f = elim (Bool-cases (has_id id r)) [
    | inl here ↦ rw same_id (
        rw here (elim receipts [
          | inl same ↦ rw same (rw here at f)
          | inr (unsent, sent) ↦ rw sent (publishing m (rw (here, unsent) at f))
        ]))
    | inr other ↦ rw same_id (rw other (behind (rw other at f)))
  ]

  -- An update that leaves ids and receipts alone, or gives a receipt where there is none.
  update_phase :
      (p : Phase) (m : Text) (test : EventRow → Bool) (set : EventRow → EventRow)
      → ((r : EventRow) → (set r).id ≡ r.id)
      → ((r : EventRow)
          → test r ≡ true
          → ((set r).queue_message_id ≡ r.queue_message_id)
            ⊎ ((r.queue_message_id ≡ none) × ((set r).queue_message_id ≡ some m)))
      → (rows : List EventRow) → Follows p (phase id rows)
      → Follows p (phase id (update_where test set rows))
  update_phase p m test set same_id receipts [] f = f
  update_phase p m test set same_id receipts (r ∷ rows) f = elim (Bool-cases (test r)) [
    | inl passes ↦ rw passes (
        front_phase p m r (set r) rows (update_where test set rows) (same_id r) (receipts r passes)
          (update_phase p m test set same_id receipts rows) f)
    | inr fails ↦ rw fails (
        front_phase p m r r rows (update_where test set rows) refl (inl refl)
          (update_phase p m test set same_id receipts rows) f)
  ]

  Follows-IsKept :
      (p : Phase) (sha256_hex : Text → Text) (xadd : ℕ → Attempt)
      → IsKept sha256_hex xadd (λ s. Follows p (phase id s.db.events))
  unfolding quarantine close_window mark_queued
  Follows-IsKept p sha256_hex xadd = record {
    admitting = λ e s a db f h. elim (admit-eq-ok dedupe_window e s.db h) [
      | inl (r, _, _, same) ↦
          rw same (update_phase p [] (has_id r.id) bump (λ q. refl) (λ q _. inl refl) s.db.events f)
      | inr (_, _, _, same) ↦ rw same (append_phase p s.db.events (new_row e) refl f)
    ];
    quarantining = λ row_id at source reason s db f h.
        let row = quarantine_row row_id source at reason in
        let (_, same) = insert_event-eq-ok row s.db h in
        rw same (append_phase p s.db.events row refl f);
    closing = λ g at s f.
        update_phase p [] (is_open g) (shut_window at) (λ q. refl) (λ q _. inl refl) s.db.events f;
    sending = λ event_id now e s db f _.
        send-db sha256_hex xadd (λ d. Follows p (phase id d.events)) event_id now e s
          (λ m.
            update_phase p m (lacks_receipt event_id) (with_receipt m now) (λ q. refl)
              (λ q lacks. inr (ground arith, refl)) s.db.events f)
          f;
  }

  -- Refinement: from sound books and an idle worker, whatever a sequence of requests, single
  -- transactions, offers and effects of the worker does, and whatever fails in it, what the table of events says of an id moves only as
  -- specified: from unknown to stored, and from stored to published, never back, and never to
  -- another id of the stream.
  pub Reach-Follows :
      {Address Network : Type 0} (lib : Libraries Address Network) (router : Router Network)
      {start stop : System}
      → Reach lib router Anything start stop
      → IsSound start.db
      → start.worker ≡ idle
      → Follows (phase id start.db.events) (phase id stop.db.events)
  Reach-Follows lib router {start = start} reached sound at_rest =
      reach_keeps lib router Anything tt
        (λ rows _. Follows (phase id start.db.events) (phase id rows))
        (λ xadd _. Follows-IsKept (phase id start.db.events) lib.sha256_hex xadd) reached
        (idle-IsSteady lib.sha256_hex start sound at_rest) (unchanged (phase id start.db.events))
