-- ===== src/Worker/Effects.antt =====
-- What one message does to the tables, whatever fails on the way (worker.py).
use smokejumper.Prelude.{
  ◌≡◌, refl, sym, ap, subst, true, some, List, ◌∷◌, Text, lit, Result, ok, err, inl, inr, ◌⊎◌,
  Bool-cases, Option-cases,
}
use smokejumper.Contracts.Events.{AgentEvent}
use smokejumper.Contracts.Conclusions.{Conclusion, status_value}
use smokejumper.Persistence.{Wire, EventRow, Database, concluded}
use smokejumper.Intelligence.{triage}
use smokejumper.Actions.{RunClaim, is_concluded, open_run, apply, close_run}
use smokejumper.Actions.Runs.{IsSound, HasAction}
use smokejumper.Actions.Books.{Books, open_run-Books, apply-Books, close_run-Books}
use smokejumper.Queue.{Message}
use smokejumper.Recorder.{event, start_offset}
use smokejumper.Receiver.Repository.{load}
use smokejumper.Worker.{
  World, Env, pure, transaction, transition_of, action_of, claimed_status, investigate, handle, ack,
  settle, process_event, process_loaded, process,
}
use smokejumper.Worker.Triple.{
  Triple, Triple-reading, Triple-weaken, Triple-pure, Triple-if, Triple-transaction, Triple-bind,
  Triple-record_act,
}

abbrev Always : Database → Type 0
Always _ = Unit

module _ (rows : List EventRow) (env : Env) (e : AgentEvent) where
  abbrev concluding : Conclusion
  concluding = triage env.uuid_text env.isoformat env.elapsed_ms e (some e.id)

  concluding-run_id : concluding.run_id ≡ e.id
  unfolding triage
  concluding-run_id = refl

  abbrev Recorded : Database → Type 0
  Recorded db = HasAction e.id db

  -- A run that returns has its action on record.
  investigate-Triple : Triple (Books rows) Always (investigate env e) (λ _. Recorded)
  unfolding investigate
  investigate-Triple =
      Triple-bind (Books rows) Always (λ _. Always) (λ _. Recorded) _ _
        (Triple-record_act (Books rows) Always env (env.clock 1) e.id (lit "worker") (event e))
        λ _.
          Triple-bind (Books rows) Always (λ _. Always) (λ _. Recorded) _ _
            (Triple-record_act (Books rows) Always env (env.clock 2) e.id (lit "triage")
              (transition_of env concluding))
            λ _.
              Triple-bind (Books rows) Always (λ _. Recorded) (λ _. Recorded) _ _
                (Triple-transaction (Books rows) Always (λ _. Recorded) (env.db_up 1)
                  (apply env.fresh (env.clock 3) concluding)
                  (λ db o db' s _ h.
                    let (sound, has) =
                      apply-Books rows env.fresh (env.clock 3) concluding db o db' s h in
                    (sound, subst (λ k. HasAction k db') concluding-run_id has)))
                λ o.
                  Triple-bind (Books rows) Recorded (λ _. Recorded) (λ _. Recorded) _ _
                    (Triple-record_act (Books rows) Recorded env (env.clock 4) e.id (lit "actions")
                      (action_of env o))
                    λ written.
                      Triple-bind (Books rows) Recorded (λ _. Recorded) (λ _. Recorded) _ _
                        (Triple-transaction (Books rows) Recorded (λ _. Recorded) (env.db_up 2)
                          (close_run e.id concluded (some concluding) written.1 (env.clock 5))
                          (λ db _ db' s has h.
                            close_run-Books rows e.id concluded (some concluding) written.1
                              (env.clock 5) db db' s has h))
                        λ _.
                          Triple-pure (Books rows) Recorded (λ _. Recorded)
                            (status_value concluding.status) (λ _ _ has. has)

  -- So has an event that `handle` returns from: its run was concluded before, or is now.
  handle-Triple : Triple (Books rows) Always (handle env e) (λ _. Recorded)
  unfolding handle
  handle-Triple =
      Triple-bind (Books rows) Always
        (λ (claim : RunClaim) db. is_concluded claim.status ≡ true → Recorded db) (λ _. Recorded) _
        _
        (Triple-reading (Books rows) Always _
          (λ w.
            transaction (env.db_up 0) (
              open_run e.id e.id e.fingerprint env.log_file (start_offset w.recorder)
                (env.clock 0)))
          λ w.
            Triple-transaction (Books rows) Always
              (λ (claim : RunClaim) db. is_concluded claim.status ≡ true → Recorded db)
              (env.db_up 0)
              (open_run e.id e.id e.fingerprint env.log_file (start_offset w.recorder)
                (env.clock 0))
              (λ db claim db' s _ h.
                open_run-Books rows e.id e.id e.fingerprint env.log_file (start_offset w.recorder)
                  (env.clock 0) db claim db' s h))
        λ claim.
          Triple-if (Books rows) (λ db. is_concluded claim.status ≡ true → Recorded db)
            (λ _. Recorded) (is_concluded claim.status)
            (pure (claimed_status env claim.conclusion_status)) (investigate env e)
            (λ done.
              Triple-pure (Books rows) (λ db. is_concluded claim.status ≡ true → Recorded db)
                (λ _. Recorded) (claimed_status env claim.conclusion_status) (λ _ _ has. has done))
            (λ _.
              Triple-weaken (Books rows) Always
                (λ db. is_concluded claim.status ≡ true → Recorded db) (λ _. Recorded)
                (investigate env e) investigate-Triple (λ _ _. tt))

module _ (env : Env) (message_id : Text) (e : AgentEvent) (w : World) (sound : IsSound w.db) where
  -- What the call changed of what was acknowledged, and what then holds.
  abbrev AcksRecorded : World → Type 0
  AcksRecorded w' =
      (w'.acked ≡ w.acked) ⊎ ((w'.acked ≡ message_id ∷ w.acked) × HasAction e.id w'.db)

  ack-cases :
      (w' : World)
      → w'.acked ≡ w.acked
      → HasAction e.id w'.db
      → AcksRecorded (ack env message_id w').1
  unfolding ack
  ack-cases w' same has = elim (Bool-cases env.ack_up) [
    | inl up ↦ rw up (inr (ap (λ earlier. message_id ∷ earlier) same, has))
    | inr down ↦ rw down (inl same)
  ]

  process_event-AcksRecorded : AcksRecorded (process_event env message_id e w).1
  unfolding process_event
  process_event-AcksRecorded = by_result (handle env e w).0 refl
    where
      by_result :
          (r : Result Text)
          → (handle env e w).0 ≡ r
          → AcksRecorded (settle env message_id r (handle env e w).1).1
      by_result (ok status) returned =
          ack-cases (handle env e w).1 ((handle-Triple w.db.events env e).acks_none w)
            ((handle-Triple w.db.events env e).ensures w status (sound, refl) tt returned)
      by_result (err error) raised = inl ((handle-Triple w.db.events env e).acks_none w)

ack-db : (env : Env) (message_id : Text) (w : World) → (ack env message_id w).1.db ≡ w.db
unfolding ack
ack-db env message_id w = elim (Bool-cases env.ack_up) [
  | inl up ↦ rw up refl
  | inr down ↦ rw down refl
]

module _ (rows : List EventRow) (env : Env) where
  settle-Books :
      (message_id : Text) (r : Result Text) (w : World)
      → Books rows w.db
      → Books rows (settle env message_id r w).1.db
  settle-Books message_id (ok status) w books =
      subst (Books rows) (sym (ack-db env message_id w)) books
  settle-Books message_id (err error) w books = books

  process_loaded-Books :
      (message_id : Text) (r : Result AgentEvent) (w : World)
      → Books rows w.db
      → Books rows (process_loaded env message_id r w).1.db
  unfolding process_event
  process_loaded-Books message_id (err error) w books =
      subst (Books rows) (sym (ack-db env message_id w)) books
  process_loaded-Books message_id (ok e) w books =
      settle-Books message_id (handle env e w).0 (handle env e w).1
        ((handle-Triple rows env e).keeps w books tt)

module _ (sha256_hex : Text → Text) (env : Env) where
  process-Books :
      (rows : List EventRow) (m : Message) (w : World)
      → Books rows w.db
      → Books rows (process sha256_hex env m w).1.db
  unfolding process
  process-Books rows m w books = elim (Option-cases m.event) [
    | inl missing ↦ rw missing (subst (Books rows) (sym (ack-db env m.id w)) books)
    | inr (raw, carried) ↦
        rw carried (process_loaded-Books rows env m.id (load sha256_hex raw) w books)
  ]

  -- Processing a message keeps the tables sound, whichever of the database, the disk and Redis
  -- fail on the way: the tickets have been written as often as the ledger has entries, no
  -- fingerprint has two open tickets, no run two entries, and no concluded run is without its
  -- entry.
  pub process-IsSound :
      (m : Message) (w : World) → IsSound w.db → IsSound (process sha256_hex env m w).1.db
  process-IsSound m w sound = (process-Books w.db.events m w (sound, refl)).0

  -- The worker reads its events from the stream, and writes no row of their table.
  pub process-events :
      (m : Message) (w : World)
      → IsSound w.db
      → (process sha256_hex env m w).1.db.events ≡ w.db.events
  process-events m w sound = (process-Books w.db.events m w (sound, refl)).1

  -- From sound tables, processing a message that carries a valid event either acknowledges
  -- nothing, or acknowledges this message and leaves the ticket action of the event on record.
  pub process_acks_recorded :
      (m : Message) (w : World) {raw : Wire} {e : AgentEvent}
      → IsSound w.db
      → m.event ≡ some raw
      → load sha256_hex raw ≡ ok e
      → ((process sha256_hex env m w).1.acked ≡ w.acked)
        ⊎ (((process sha256_hex env m w).1.acked ≡ m.id ∷ w.acked)
            × HasAction e.id (process sha256_hex env m w).1.db)
  unfolding process
  process_acks_recorded m w {e = e} sound carried loaded =
      rw (carried, loaded) (process_event-AcksRecorded env m.id e w sound)
