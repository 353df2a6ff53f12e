-- ===== src/Worker/Again.antt =====
-- A message that Redis delivers again after its run has been concluded (worker.py).
use smokejumper.Prelude.{
  ℕ, ◌≡◌, refl, ap, ◌∙◌, Bool, true, false, ◌&&◌, none, some, List, [], ◌∷◌, Text, Result, ok, err,
  other, All, any, arith,
}
use smokejumper.Contracts.Events.{AgentEvent}
use smokejumper.Persistence.{Wire, RunRow, Database}
use smokejumper.Persistence.Commit.{begin-ok}
use smokejumper.Persistence.Table.{first, update_where}
use smokejumper.Queue.{Message}
use smokejumper.Receiver.Repository.{load}
use smokejumper.Recorder.{start_offset}
use smokejumper.Actions.{
  RunClaim, is_run, is_running, is_concluded, open_run, restart, restarted_runs, inserted_runs,
  new_run, conclusion_status,
}
use smokejumper.Worker.{
  World, Env, transaction, claimed_status, handle, ack, process_event, process,
}

-- The run of an id is concluded, and no other row has it running.
pub record IsFinished (run : ℕ) (runs : List RunRow) (r : RunRow) : Type 0 where
  pub found : first (is_run run) runs ≡ some r
  pub done : is_concluded r.status ≡ true
  pub stopped : All (λ (q : RunRow). (is_run run q && is_running q.status) ≡ false) runs

any-of_first :
    (p : RunRow → Bool) (r : RunRow) (runs : List RunRow)
    → first p runs ≡ some r
    → any p runs ≡ true
any-of_first p r [] h = cc h
any-of_first p r (q ∷ runs) h = ground (arith, any-of_first p r runs)

untouched :
    (test : RunRow → Bool) (set : RunRow → RunRow) (runs : List RunRow)
    → All (λ q. test q ≡ false) runs
    → update_where test set runs ≡ runs
untouched test set [] h = refl
untouched test set (q ∷ runs) (h, hs) = rw h (ap (λ rest. q ∷ rest) (untouched test set runs hs))

module _ (run event : ℕ) (f log : Text) (offset now : ℕ) where
  abbrev claimed_from : Database → List RunRow → Result (RunClaim × Database)
  claimed_from db runs = elim (first (is_run run) runs) [
    | none ↦ err other
    | some r ↦ ok (
      record { status = r.status; conclusion_status = conclusion_status r },
      record db { runs = runs },
    )
  ]

  -- Claiming a finished run changes nothing.
  open_run_again :
      (db : Database) (r : RunRow)
      → IsFinished run db.runs r
      → open_run run event f log offset now db
        ≡ ok (record { status = r.status; conclusion_status = conclusion_status r }, db)
  unfolding open_run
  open_run_again db r finished =
      let present = any-of_first (is_run run) r db.runs finished.found in
      let same : restarted_runs run log offset now
            (inserted_runs (new_run run event f log offset now) db.runs)
          ≡ db.runs =
        rw present (
          untouched (λ q. is_run run q && is_running q.status) (restart log offset now) db.runs
            finished.stopped) in
      ap (claimed_from db) same ∙ rw (finished.found, claimed_from) refl

module _ (env : Env) (e : AgentEvent) (w : World) (r : RunRow) (up : env.db_up 0 ≡ true)
    (finished : IsFinished e.id w.db.runs r) where
  handle_again : handle env e w ≡ (ok (claimed_status env (conclusion_status r)), w)
  unfolding handle transaction
  handle_again =
      rw
        (
          up,
          begin-ok
              (open_run e.id e.id e.fingerprint env.log_file (start_offset w.recorder)
                (env.clock 0))
              w.db
              (open_run_again e.id e.id e.fingerprint env.log_file (start_offset w.recorder)
                (env.clock 0) w.db r finished),
          finished.done,
        )
        refl

-- A message whose event's run is concluded, delivered again: it is acknowledged, and the tables, the
-- audit trail and every ticket stay as they were, if the database can be reached.
pub process_again :
    (sha256_hex : Text → Text) (env : Env) (m : Message) (w : World) (r : RunRow) {raw : Wire}
    {e : AgentEvent}
    → env.db_up 0 ≡ true
    → m.event ≡ some raw
    → load sha256_hex raw ≡ ok e
    → IsFinished e.id w.db.runs r
    → process sha256_hex env m w ≡ ack env m.id w
unfolding process process_event
process_again sha256_hex env m w r {e = e} up carried loaded finished =
    rw (carried, loaded, handle_again env e w r up finished) refl
