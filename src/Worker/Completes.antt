-- ===== src/Worker/Completes.antt =====
-- A message comes to its end where nothing fails on the way (worker.py).
use smokejumper.Prelude.{
  ℕ, suc, ◌+◌, ◌≤◌, ◌≡◌, refl, sym, ap, subst, ◌∙◌, Bool, true, false, inl, inr, some, List, ◌∷◌,
  Text, lit, ok, any, length, All, All-imp, arith, if◌then◌else◌,
}
use smokejumper.Contracts.Events.{AgentEvent}
use smokejumper.Contracts.Conclusions.{Conclusion}
use smokejumper.Persistence.{Wire, RunRow, Database, Tx, concluded}
use smokejumper.Persistence.Commit.{begin-ok}
use smokejumper.Queue.{Message}
use smokejumper.Receiver.Repository.{load}
use smokejumper.Intelligence.{triage}
use smokejumper.Recorder.{
  Payload, stored, AuditEvent, Recorder, event, numbered, set_seq, land, record_line, append,
  start_offset,
}
use smokejumper.Actions.{
  TicketOutcome, RunClaim, is_run, is_ticket, is_concluded, open_run, apply, close_run,
}
use smokejumper.Actions.Progress.{BeginsBy, open_run_total, apply-runs, close_run_total}
use smokejumper.Actions.Redelivery.{apply_total}
use smokejumper.Actions.Runs.{IsSound, HasAction}
use smokejumper.Worker.Effects.{process_acks_recorded}
use smokejumper.Worker.Turns.{
  Pc, idle, received, opened, noted, triaged, applied, audited, handled, after, received-take, turn,
  turns, turns-idle, turns-take,
}
use smokejumper.Worker.{World, Env, transaction, record_act, transition_of, action_of, ack, process}

-- The database answers, the disk takes each line, and Redis takes the acknowledgement.
pub record IsUp (env : Env) : Type 0 where
  pub database : (n : ℕ) → env.db_up n ≡ true
  pub disk : (n : ℕ) → env.disk n ≡ stored
  pub redis : env.ack_up ≡ true

-- A transaction that returns goes on with what it returns.
after-transaction :
    {A : Type 0} (up : Bool) (m : Tx A) (f : A → Pc) (w : World) (a : A) (db' : Database)
    → up ≡ true
    → m w.db ≡ ok (a, db')
    → after (transaction up m) f w ≡ (f a, record w { db = db' })
unfolding transaction
after-transaction up m f w a db' h e = rw (h, begin-ok m w.db e) refl

module _ (env : Env) (up : IsUp env) where
  -- A line on the disk: the file does not get shorter, and ends where the call says.
  after-record_act :
      (now run : ℕ) (actor : Text) (payload : Payload) (f : ℕ × ℕ → Pc) (w : World)
      → (a : ℕ × ℕ) × (r : Recorder) × (after (record_act env now run actor payload) f w
          ≡ (f a, record w { recorder = r }))
        × (w.recorder.size ≤ r.size)
        × (a.1 ≡ r.size)
  unfolding record_act record_line append
  after-record_act now run actor payload f w =
      let r = w.recorder in
      let e : AuditEvent = record {
        run_id = run;
        seq = 1;
        ts = now;
        actor = actor;
        payload = payload;
      } in
      let seq = r.last_seq run + 1 in
      let line = numbered seq e in
      let begun = record r { last_seq = set_seq run seq r.last_seq; writes = r.writes + 1 } in
      (
        (seq, r.size + env.line_size line),
        land env.disk env.line_size line begun,
        rw (up.disk r.writes, append) refl,
        omega arith,
        refl,
      )

  module _ (e : AgentEvent) where
    abbrev concluding : Conclusion
    concluding = triage env.uuid_text env.isoformat env.elapsed_ms e (some e.id)

    concluding-run_id : concluding.run_id ≡ e.id
    unfolding triage
    concluding-run_id = refl

    later :
        (n n' : ℕ) → n ≤ n' → (runs : List RunRow) → All (BeginsBy n) runs → All (BeginsBy n') runs
    later n n' more runs =
        All-imp (BeginsBy n) (BeginsBy n') (λ (r : RunRow) begins. omega (arith, begins, more)) runs

    module _ (m : Message) where
      handled_ends :
          (n : ℕ) (w : World)
          → turns env (suc n) (handled m, w) ≡ (idle, record w { acked = m.id ∷ w.acked })
      unfolding turns turn ack
      handled_ends n w = rw up.redis (turns-idle env n (record w { acked = m.id ∷ w.acked }))

      -- After the ticket action: its line, the end of the run, and the acknowledgement.
      applied_ends :
          (o : TicketOutcome) (w : World)
          → All (BeginsBy w.recorder.size) w.db.runs
          → (w' : World) × (turns env 3 (applied m e concluding o, w) ≡ (idle, w'))
            × (w'.acked ≡ m.id ∷ w.acked)
      unfolding turns turn
      applied_ends o w begins =
          let (a, r, e1, more, ends) =
            after-record_act (env.clock 4) e.id (lit "actions") (action_of env o)
              (λ (_, end_offset). audited m e concluding end_offset) w in
          let w1 : World = record w { recorder = r } in
          let (db, closed) =
            close_run_total e.id concluding a.1 (env.clock 5) w.db
              (later w.recorder.size a.1 (omega (arith, more, ends)) w.db.runs begins) in
          let e2 =
            after-transaction (env.db_up 2)
              (close_run e.id concluded (some concluding) a.1 (env.clock 5)) (λ _. handled m) w1 tt
              db (up.database 2) closed in
          let w2 : World = record w1 { db = db } in
          (
            record w2 { acked = m.id ∷ w.acked },
            ap (turns env 2) e1 ∙ ap (turns env 1) e2 ∙ handled_ends 0 w2,
            refl,
          )

      -- The investigation comes to the acknowledgement.
      opened_ends :
          (w : World)
          → any (is_run e.id) w.db.runs ≡ true
          → any (is_ticket env.fresh) w.db.tickets ≡ false
          → All (BeginsBy w.recorder.size) w.db.runs
          → (w' : World) × (turns env 6 (opened m e, w) ≡ (idle, w')) × (w'.acked ≡ m.id ∷ w.acked)
      unfolding turns turn
      opened_ends w exists fresh begins =
          let (a1, r1, e1, more1, _) =
            after-record_act (env.clock 1) e.id (lit "worker") (event e) (λ _. noted m e) w in
          let w1 : World = record w { recorder = r1 } in
          let (a2, r2, e2, more2, _) =
            after-record_act (env.clock 2) e.id (lit "triage") (transition_of env concluding)
              (λ _. triaged m e concluding) w1 in
          let w2 : World = record w1 { recorder = r2 } in
          let (o, db, applying) =
            apply_total env.fresh (env.clock 3) concluding w.db
              (ap (λ k. any (is_run k) w.db.runs) concluding-run_id ∙ exists) fresh in
          let e3 =
            after-transaction (env.db_up 1) (apply env.fresh (env.clock 3) concluding)
              (λ x. applied m e concluding x) w2 o db (up.database 1) applying in
          let begins' : All (BeginsBy r2.size) db.runs =
            subst (λ runs. All (BeginsBy r2.size) runs)
              (sym (apply-runs env.fresh (env.clock 3) concluding w.db o db applying))
              (later w.recorder.size r2.size (omega (arith, more1, more2)) w.db.runs begins) in
          let (w', ends, acked) = applied_ends o (record w2 { db = db }) begins' in
          (w', ap (turns env 5) e1 ∙ ap (turns env 4) e2 ∙ ap (turns env 3) e3 ∙ ends, acked)

      -- A run that is concluded already is only acknowledged.
      claimed_ends :
          (done : Bool) (w : World)
          → any (is_run e.id) w.db.runs ≡ true
          → any (is_ticket env.fresh) w.db.tickets ≡ false
          → All (BeginsBy w.recorder.size) w.db.runs
          → (w' : World) × (turns env 6 ((if done then handled m else opened m e), w) ≡ (idle, w'))
            × (w'.acked ≡ m.id ∷ w.acked)
      claimed_ends true w exists fresh begins = (_, handled_ends 5 w, refl)
      claimed_ends false w exists fresh begins = opened_ends w exists fresh begins

      received_ends :
          (w : World)
          → any (is_ticket env.fresh) w.db.tickets ≡ false
          → All (BeginsBy w.recorder.size) w.db.runs
          → (w' : World) × (turns env 7 (received m e, w) ≡ (idle, w'))
            × (w'.acked ≡ m.id ∷ w.acked)
      unfolding turns turn start_offset
      received_ends w fresh begins =
          let (claim, runs, opens, exists, begins') =
            open_run_total e.id e.id e.fingerprint env.log_file w.recorder.size (env.clock 0) w.db
              begins in
          let db' : Database = record w.db { runs = runs } in
          let step =
            after-transaction (env.db_up 0)
              (open_run e.id e.id e.fingerprint env.log_file w.recorder.size (env.clock 0))
              (λ (claim : RunClaim). if is_concluded claim.status then handled m else opened m e) w
              claim db' (up.database 0) opens in
          let (w', ends, acked) =
            claimed_ends (is_concluded claim.status) (record w { db = db' }) exists fresh begins' in
          (w', ap (turns env 6) step ∙ ends, acked)

cons-ne : (x : Text) (xs : List Text) → x ∷ xs ≡ xs → ⊥
cons-ne x xs e = let longer : suc (length xs) ≡ length xs = ap length e in omega (arith, longer)

-- From sound tables, where nothing fails on the way, the id for a new ticket is free and no run
-- begins behind the end of the audit trail: a message with a valid event is acknowledged, and the
-- ticket action of the event is on record.
pub process_completes :
    (sha256_hex : Text → Text) (env : Env) (m : Message) (w : World) {raw : Wire} {e : AgentEvent}
    → IsUp env
    → IsSound w.db
    → any (is_ticket env.fresh) w.db.tickets ≡ false
    → All (λ (r : RunRow). r.audit_start_offset ≤ w.recorder.size) w.db.runs
    → m.event ≡ some raw
    → load sha256_hex raw ≡ ok e
    → ((process sha256_hex env m w).1.acked ≡ m.id ∷ w.acked)
      × HasAction e.id (process sha256_hex env m w).1.db
process_completes sha256_hex env m w {e = e} up sound fresh begins carried loaded =
    let (w', ends, one_more) = received_ends env up e m w fresh begins in
    let taken = received-take sha256_hex m carried loaded in
    let same : (process sha256_hex env m w).1 ≡ w' =
      sym (turns-take env sha256_hex m w)
      ∙ ap (λ (now : Pc × World). now.1) (ap (λ p. turns env 7 (p, w)) taken ∙ ends) in
    let acked : (process sha256_hex env m w).1.acked ≡ m.id ∷ w.acked =
      ap (λ (v : World). v.acked) same ∙ one_more in
    elim (process_acks_recorded sha256_hex env m w sound carried loaded) [
      | inl none_more ↦ absurd (cons-ne m.id w.acked (sym acked ∙ none_more))
      | inr (_, has) ↦ (acked, has)
    ]
