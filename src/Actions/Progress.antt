-- ===== src/Actions/Progress.antt =====
-- When the transactions of actions/service.py on a run return.
use smokejumper.Prelude.{
  ℕ, ◌≡◌, ◌≤◌, refl, ap, ◌∙◌, inl, inr, Bool, true, false, ◌&&◌, not, Bool-cases, some, List, [],
  ◌∷◌, arith, ok, Text, any, any-append, any_of_All, All, All-append, All-imp, ==_refl,
  if◌then◌else◌,
}
use smokejumper.Contracts.Conclusions.{Conclusion}
use smokejumper.Persistence.{RunRow, Database, concluded}
use smokejumper.Persistence.Table.{first, update_where, any-update_where, All-update_where}
use smokejumper.Actions.{
  TicketOutcome, RunClaim, is_run, is_running, new_run, inserted_runs, restarted_runs, restart,
  conclusion_status, open_run, may_finish, close_run, finish, apply,
}
use smokejumper.Actions.Runs.{open_run-eq-ok}
use smokejumper.Actions.Tickets.{apply-cases, create_or_update-effect}

-- No run begins behind this place of the audit trail.
abbrev pub BeginsBy : ℕ → RunRow → Type 0
BeginsBy place r = r.audit_start_offset ≤ place

first_of_any :
    (p : RunRow → Bool) (runs : List RunRow)
    → any p runs ≡ true
    → (r : RunRow) × (first p runs ≡ some r)
first_of_any p [] h = cc h
first_of_any p (r ∷ runs) h = elim (Bool-cases (p r)) [
  | inl passes ↦ (r, rw passes refl)
  | inr fails ↦ let (q, found) = first_of_any p runs (rw fails at h) in (q, rw fails found)
]

module _ (run event : ℕ) (f log : Text) (offset now : ℕ) where
  abbrev fresh_run : RunRow
  fresh_run = new_run run event f log offset now

  abbrev opened_runs : List RunRow → List RunRow
  opened_runs runs = restarted_runs run log offset now (inserted_runs fresh_run runs)

  inserted-has : (runs : List RunRow) → any (is_run run) (inserted_runs fresh_run runs) ≡ true
  inserted-has runs = elim (Bool-cases (any (is_run run) runs)) [
    | inl present ↦ rw present present
    | inr absent ↦
        rw absent (ground (arith, any-append (is_run run) runs (fresh_run ∷ []), ==_refl run))
  ]

  opened-has : (runs : List RunRow) → any (is_run run) (opened_runs runs) ≡ true
  opened-has runs =
      any-update_where (is_run run) (λ r. is_run run r && is_running r.status)
        (restart log offset now) (λ r. refl) (inserted_runs fresh_run runs)
      ∙ inserted-has runs

  inserted-BeginsBy :
      (runs : List RunRow)
      → All (BeginsBy offset) runs
      → All (BeginsBy offset) (inserted_runs fresh_run runs)
  inserted-BeginsBy runs h = elim (Bool-cases (any (is_run run) runs)) [
    | inl present ↦ rw present h
    | inr absent ↦
        rw absent (All-append (BeginsBy offset) runs (fresh_run ∷ []) h (omega arith, tt))
  ]

  restart-BeginsBy :
      (t : Bool) (r : RunRow)
      → BeginsBy offset r
      → BeginsBy offset (if t then restart log offset now r else r)
  restart-BeginsBy true r h = omega arith
  restart-BeginsBy false r h = h

  opened-BeginsBy :
      (runs : List RunRow) → All (BeginsBy offset) runs → All (BeginsBy offset) (opened_runs runs)
  opened-BeginsBy runs h =
      All-update_where (BeginsBy offset) (BeginsBy offset)
        (λ q. is_run run q && is_running q.status) (restart log offset now)
        (λ q. restart-BeginsBy (is_run run q && is_running q.status) q)
        (inserted_runs fresh_run runs) (inserted-BeginsBy runs h)

  -- A run begins where it is opened, or began before.
  pub open_run-BeginsBy :
      (db : Database) (claim : RunClaim) (db' : Database)
      → open_run run event f log offset now db ≡ ok (claim, db')
      → All (BeginsBy offset) db.runs
      → All (BeginsBy offset) db'.runs
  open_run-BeginsBy db claim db' h begins =
      let (_, _, _, same) = open_run-eq-ok run event f log offset now db h in
      rw same (opened-BeginsBy db.runs begins)

  -- Opening a run always returns, and the run is then there.
  pub open_run_total :
      (db : Database)
      → All (BeginsBy offset) db.runs
      → (claim : RunClaim) × (runs : List RunRow) × (open_run run event f log offset now db
          ≡ ok (claim, record db { runs = runs }))
        × (any (is_run run) runs ≡ true)
        × All (BeginsBy offset) runs
  unfolding open_run
  open_run_total db h =
      let (r, found) = first_of_any (is_run run) (opened_runs db.runs) (opened-has db.runs) in
      (
        record { status = r.status; conclusion_status = conclusion_status r },
        opened_runs db.runs,
        rw (found, open_run) refl,
        opened-has db.runs,
        opened-BeginsBy db.runs h,
      )

-- An application changes no run.
pub apply-runs :
    (ticket_id now : ℕ) (c : Conclusion) (db : Database) (o : TicketOutcome) (db' : Database)
    → apply ticket_id now c db ≡ ok (o, db')
    → db'.runs ≡ db.runs
apply-runs ticket_id now c db o db' h = elim (apply-cases ticket_id now c db h) [
  | inl (_, _, _, same) ↦ ap (λ (d : Database). d.runs) same
  | inr (mid, _, made, same) ↦
      let (_, _, _, _, runs, _) = create_or_update-effect ticket_id now c.fingerprint db made in
      ap (λ (d : Database). d.runs) same ∙ runs
]

-- Closing a run with a conclusion returns, if no run begins behind the line that ends it.
pub close_run_total :
    (run : ℕ) (c : Conclusion) (end_offset now : ℕ) (db : Database)
    → All (BeginsBy end_offset) db.runs
    → (db' : Database) × (close_run run concluded (some c) end_offset now db ≡ ok (tt, db'))
unfolding close_run
close_run_total run c end_offset now db h =
    let fails : RunRow → Bool =
      λ r. is_run run r && not (may_finish concluded (some c) end_offset r) in
    let none_fails : any fails db.runs ≡ false =
      any_of_All fails db.runs (
        All-imp (BeginsBy end_offset) (λ r. fails r ≡ false) (λ r begins. ground arith) db.runs
          h) in
    (
      record db {
        runs = update_where (is_run run) (finish concluded (some c) now end_offset) db.runs;
      },
      rw none_fails refl,
    )

finish-BeginsBy :
    (place : ℕ) (c : Conclusion) (end_offset now : ℕ) (t : Bool) (r : RunRow)
    → BeginsBy place r
    → BeginsBy place (if t then finish concluded (some c) now end_offset r else r)
finish-BeginsBy place c end_offset now true r h = h
finish-BeginsBy place c end_offset now false r h = h

-- Closing a run does not move its beginning.
pub close_run-BeginsBy :
    (place run : ℕ) (c : Conclusion) (end_offset now : ℕ) (db db' : Database)
    → close_run run concluded (some c) end_offset now db ≡ ok (tt, db')
    → All (BeginsBy place) db.runs
    → All (BeginsBy place) db'.runs
unfolding close_run
close_run-BeginsBy place run c end_offset now db db' h begins =
    let runs = update_where (is_run run) (finish concluded (some c) now end_offset) db.runs in
    let same : db' ≡ record db { runs = runs } = ground arith in
    rw same (
      All-update_where (BeginsBy place) (BeginsBy place) (is_run run)
        (finish concluded (some c) now end_offset)
        (λ r. finish-BeginsBy place c end_offset now (is_run run r) r) db.runs begins)
