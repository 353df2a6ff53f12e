-- ===== src/Worker/Turned.antt =====
-- Each effect of a message keeps what holds in the database around it (worker.py).
use smokejumper.Prelude.{
  ℕ, ◌≡◌, refl, sym, subst, ◌⊎◌, inl, inr, true, false, Bool, Bool-cases, some, List, ◌∷◌, Text,
  Result, ok, err, if◌then◌else◌,
}
use smokejumper.Contracts.Events.{AgentEvent}
use smokejumper.Persistence.{EventRow, Database, Tx, begin, concluded}
use smokejumper.Persistence.Commit.{begin-ok, begin-err}
use smokejumper.Queue.{Message}
use smokejumper.Recorder.{Payload, start_offset}
use smokejumper.Intelligence.{triage}
use smokejumper.Actions.{is_concluded}
use smokejumper.Actions.Runs.{HasAction}
use smokejumper.Actions.Books.{
  Books, KeepsActions, open_run-Books, apply-Books, close_run-Books, open_run-KeepsActions,
  apply-KeepsActions, close_run-KeepsActions,
}
use smokejumper.Worker.{World, Env, transaction, record_act, ack}
use smokejumper.Worker.Turns.{
  Pc, idle, ended, received, opened, noted, triaged, applied, audited, handled, acknowledged, next,
  after, turn,
}
use smokejumper.Worker.Promises.{Taken, Promise, Loads-IsRecorded}

module _ (sha256_hex : Text → Text) where
  triage-run_id :
      (env : Env) (e : AgentEvent)
      → (triage env.uuid_text env.isoformat env.elapsed_ms e (some e.id)).run_id ≡ e.id
  unfolding triage
  triage-run_id env e = refl

  acknowledged-Promise :
      (entries : List Message) (r : Result (Unit {0})) (db : Database)
      → Promise sha256_hex entries (acknowledged r) db
  acknowledged-Promise entries (ok _) db = tt
  acknowledged-Promise entries (err error) db = tt

  module _ (entries : List Message) (rows : List EventRow) where
    -- Sound books, the events as they were, a longer ledger, and what the worker then promises.
    pub record Turned (db : Database) (p : Pc) (db' : Database) : Type 0 where
      pub books : Books rows db'
      pub longer : KeepsActions db db'
      pub promise : Promise sha256_hex entries p db'

    module _ {A : Type 0} (f : A → Pc) (w : World) (books : Books rows w.db) where
      -- A transaction that raises leaves the tables as they were, and the worker idle.
      Turned-transaction :
          (up : Bool) (m : Tx A)
          → ((a : A) (db' : Database) → m w.db ≡ ok (a, db') → Turned w.db (f a) db')
          → Turned w.db (after (transaction up m) f w).0 (after (transaction up m) f w).1.db
      unfolding transaction
      Turned-transaction false m step = record {
        books = books;
        longer = λ run has. has;
        promise = tt;
      }
      Turned-transaction true m step = by_result (m w.db) refl
        where
          by_result :
              (r : Result (A × Database))
              → m w.db ≡ r
              → Turned w.db (next (begin m w.db).0 f) (begin m w.db).1
          by_result (ok (a, db')) e =
              subst (λ (x : Result A × Database). Turned w.db (next x.0 f) x.1)
                (sym (begin-ok m w.db e)) (step a db' e)
          by_result (err error) e =
              subst (λ (x : Result A × Database). Turned w.db (next x.0 f) x.1)
                (sym (begin-err m w.db e))
                (record { books = books; longer = λ run has. has; promise = tt })

    -- A line of the audit trail.
    Turned-record_act :
        (f : ℕ × ℕ → Pc) (w : World) (books : Books rows w.db) (env : Env) (now run : ℕ)
        (actor : Text) (payload : Payload)
        → ((a : ℕ × ℕ) → Promise sha256_hex entries (f a) w.db)
        → Turned w.db
            (after (record_act env now run actor payload) f w).0
            (after (record_act env now run actor payload) f w).1.db
    unfolding record_act
    Turned-record_act f w books env now run actor payload kept = record {
      books = books;
      longer = λ other has. has;
      promise = by_result _;
    }
      where
        by_result : (r : Result (ℕ × ℕ)) → Promise sha256_hex entries (next r f) w.db
        by_result (ok a) = kept a
        by_result (err error) = tt

    ack-db : (env : Env) (id : Text) (w : World) → (ack env id w).1.db ≡ w.db
    unfolding ack
    ack-db env id w = elim (Bool-cases env.ack_up) [ inl up ↦ rw up refl | inr down ↦ rw down refl ]

    claimed-Promise :
        (m : Message) (e : AgentEvent) (db : Database) (done : Bool)
        → Taken sha256_hex entries m e
        → (done ≡ true → HasAction e.id db)
        → Promise sha256_hex entries (if done then handled m else opened m e) db
    claimed-Promise m e db true (here, l) has =
        (here, Loads-IsRecorded sha256_hex m e db l (has refl))
    claimed-Promise m e db false l has = l

    -- Each effect of a message, whether it takes place or raises, keeps the books sound and every
    -- action on record, and makes good what the worker promises next.
    pub turn-Turned :
        (env : Env) (p : Pc) (w : World)
        → Books rows w.db
        → Promise sha256_hex entries p w.db
        → Turned w.db (turn env p w).0 (turn env p w).1.db
    unfolding turn
    turn-Turned env idle w books h = record { books = books; longer = λ run has. has; promise = tt }
    turn-Turned env ended w books h = record {
      books = books;
      longer = λ run has. has;
      promise = tt;
    }
    turn-Turned env (received m e) w books l =
        Turned-transaction _ w books (env.db_up 0) _ λ claim db' h.
          let (books', has) =
            open_run-Books rows e.id e.id e.fingerprint env.log_file (start_offset w.recorder)
              (env.clock 0) w.db claim db' books h in
          record {
            books = books';
            longer =
                open_run-KeepsActions e.id e.id e.fingerprint env.log_file (start_offset w.recorder)
                  (env.clock 0) w.db claim db' h;
            promise = claimed-Promise m e db' (is_concluded claim.status) l has;
          }
    turn-Turned env (opened m e) w books l =
        Turned-record_act _ w books env (env.clock 1) e.id _ _ λ _. l
    turn-Turned env (noted m e) w books l =
        Turned-record_act _ w books env (env.clock 2) e.id _ _ λ _. (l, triage-run_id env e)
    turn-Turned env (triaged m e c) w books (l, same) =
        Turned-transaction _ w books (env.db_up 1) _ λ o db' h.
          let (books', has) = apply-Books rows env.fresh (env.clock 3) c w.db o db' books h in
          record {
            books = books';
            longer = apply-KeepsActions env.fresh (env.clock 3) c w.db o db' h;
            promise = (l, subst (λ run. HasAction run db') same has);
          }
    turn-Turned env (applied m e c o) w books h =
        Turned-record_act _ w books env (env.clock 4) e.id _ _ λ _. h
    turn-Turned env (audited m e c end_offset) w books ((here, l), has) =
        Turned-transaction _ w books (env.db_up 2) _ λ _ db' h.
          let (books', has') =
            close_run-Books rows e.id concluded (some c) end_offset (env.clock 5) w.db db' books has
              h in
          record {
            books = books';
            longer =
                close_run-KeepsActions e.id concluded (some c) end_offset (env.clock 5) w.db db' h;
            promise = (here, Loads-IsRecorded sha256_hex m e db' l has');
          }
    turn-Turned env (handled m) w books h =
        let same = ack-db env m.id w in
        record {
          books = rw same books;
          longer = rw same (λ run has. has);
          promise = acknowledged-Promise entries (ack env m.id w).0 (ack env m.id w).1.db;
        }

module _ (env : Env) where
  transaction-acked :
      {A : Type 0} (up : Bool) (m : Tx A) (w : World) → (transaction up m w).1.acked ≡ w.acked
  unfolding transaction
  transaction-acked false m w = refl
  transaction-acked true m w = refl

  -- The acknowledgement is the last effect, and of no other message.
  pub turn-acked :
      (p : Pc) (w : World)
      → ((turn env p w).1.acked ≡ w.acked)
        ⊎ ((m : Message) × (p ≡ handled m) × ((turn env p w).1.acked ≡ m.id ∷ w.acked))
  unfolding turn record_act ack
  turn-acked idle w = inl refl
  turn-acked ended w = inl refl
  turn-acked (received m e) w = inl (transaction-acked (env.db_up 0) _ w)
  turn-acked (opened m e) w = inl refl
  turn-acked (noted m e) w = inl refl
  turn-acked (triaged m e c) w = inl (transaction-acked (env.db_up 1) _ w)
  turn-acked (applied m e c o) w = inl refl
  turn-acked (audited m e c end_offset) w = inl (transaction-acked (env.db_up 2) _ w)
  turn-acked (handled m) w = elim (Bool-cases env.ack_up) [
    | inl up ↦ rw up (inr (m, refl, refl))
    | inr down ↦ rw down (inl refl)
  ]
