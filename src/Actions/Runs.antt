-- ===== src/Actions/Runs.antt =====
-- The runs of actions/service.py: a run that is concluded has its ticket action on record.
use smokejumper.Prelude.{
  ℕ, ◌≡◌, inl, inr, sym, ap, subst, ◌∙◌, Bool, true, false, ◌&&◌, Bool-cases, Option-cases, Option,
  some, List, [], ◌∷◌, ◌++◌, arith, ok, Text, any, any-append, any_of_mem, All, All-append, All-imp,
  All-mem, if◌then◌else◌, ==_refl,
}
use smokejumper.Contracts.Conclusions.{Conclusion}
use smokejumper.Persistence.{RunStatus, RunRow, ActionRow, Database}
use smokejumper.Persistence.Table.{update_where, first, first-mem, All-update_where}
use smokejumper.Actions.{
  TicketOutcome, RunClaim, is_run, is_action, new_run, inserted_runs, restarted_runs, restart,
  is_running, open_run, finish, is_concluded, close_run, action_row, apply,
}
use smokejumper.Actions.Tickets.{apply-cases, create_or_update-effect}
use smokejumper.Actions.Ledger.{IsBalanced, apply-IsBalanced}

abbrev pub HasAction : ℕ → Database → Type 0
HasAction run db = any (is_action run) db.ticket_actions ≡ true

abbrev pub IsSettledRow : List ActionRow → RunRow → Type 0
IsSettledRow actions r = is_concluded r.status ≡ true → any (is_action r.run_id) actions ≡ true

-- The books are balanced, and no run is concluded without its action.
pub record IsSound (db : Database) : Type 0 where
  pub balanced : IsBalanced db
  pub settled : All (IsSettledRow db.ticket_actions) db.runs

IsBalanced-runs :
    (db : Database) (runs : List RunRow) → IsBalanced db → IsBalanced (record db { runs = runs })
IsBalanced-runs db runs b = record {
  balance = b.balance;
  one_each = b.one_each;
  one_open = b.one_open;
}

module _ (run event : ℕ) (f log : Text) (offset now : ℕ) where
  restart-settled :
      (actions : List ActionRow) (t : Bool) (r : RunRow)
      → IsSettledRow actions r
      → IsSettledRow actions (if t then restart log offset now r else r)
  restart-settled actions true r h = h
  restart-settled actions false r h = h

  inserted-settled :
      (actions : List ActionRow) (runs : List RunRow)
      → All (IsSettledRow actions) runs
      → All (IsSettledRow actions) (inserted_runs (new_run run event f log offset now) runs)
  unfolding is_concluded
  inserted-settled actions runs h = by_test (any (is_run run) runs)
    where
      by_test :
          (t : Bool)
          → All
              (IsSettledRow actions)
              (if t then runs else runs ++ new_run run event f log offset now ∷ [])
      by_test true = h
      by_test false =
          All-append (IsSettledRow actions) runs (new_run run event f log offset now ∷ []) h
            (λ e. cc, tt)

  abbrev opened_runs : List RunRow → List RunRow
  opened_runs runs =
      restarted_runs run log offset now (inserted_runs (new_run run event f log offset now) runs)

  opened-settled :
      (actions : List ActionRow) (runs : List RunRow)
      → All (IsSettledRow actions) runs
      → All (IsSettledRow actions) (opened_runs runs)
  opened-settled actions runs h =
      All-update_where (IsSettledRow actions) (IsSettledRow actions)
        (λ r. is_run run r && is_running r.status) (restart log offset now)
        (λ r. restart-settled actions (is_run run r && is_running r.status) r)
        (inserted_runs (new_run run event f log offset now) runs) (inserted-settled actions runs h)

  pub open_run-eq-ok :
      (db : Database) {claim : RunClaim} {db' : Database}
      → open_run run event f log offset now db ≡ ok (claim, db')
      → (r : RunRow) × (first (is_run run) (opened_runs db.runs) ≡ some r)
        × (claim.status ≡ r.status)
        × (db' ≡ record db { runs = opened_runs db.runs })
  unfolding open_run
  open_run-eq-ok db h = elim (Option-cases (first (is_run run) (opened_runs db.runs))) [
    | inl missed ↦ cc (rw (missed, open_run) at h)
    | inr (r, found) ↦ (r, found, ground arith, ground arith)
  ]

  -- Opening a run changes no ticket and no ledger; a claim that reads `concluded` has its action.
  pub open_run-IsSound :
      (db : Database) (claim : RunClaim) (db' : Database)
      → IsSound db
      → open_run run event f log offset now db ≡ ok (claim, db')
      → IsSound db' × (is_concluded claim.status ≡ true → HasAction run db')
  open_run-IsSound db claim db' s h =
      let (r, found, status, same) = open_run-eq-ok db h in
      let settled = opened-settled db.ticket_actions db.runs s.settled in
      let (m, here) = first-mem (is_run run) (opened_runs db.runs) r found in
      let id : r.run_id ≡ run = ground arith in
      (
        rw same (record {
          balanced = IsBalanced-runs db (opened_runs db.runs) s.balanced;
          settled = settled;
        }),
        λ done.
            ap (λ (d : Database). any (is_action run) d.ticket_actions) same
            ∙ subst (λ k. any (is_action k) db.ticket_actions ≡ true) id
                (All-mem (IsSettledRow db.ticket_actions) (opened_runs db.runs) settled m
                  (ap is_concluded (sym status) ∙ done)),
      )

-- A longer ledger settles what a shorter one does.
settled-append :
    (actions : List ActionRow) (a : ActionRow) (runs : List RunRow)
    → All (IsSettledRow actions) runs
    → All (IsSettledRow (actions ++ a ∷ [])) runs
settled-append actions a runs h =
    All-imp (IsSettledRow actions) (IsSettledRow (actions ++ a ∷ []))
      (λ r settled done.
        ground (arith, settled done, any-append (is_action r.run_id) actions (a ∷ [])))
      runs h

-- After an application the run's action is on record.
pub apply-IsSound :
    (ticket_id now : ℕ) (c : Conclusion) (db : Database) (o : TicketOutcome) (db' : Database)
    → IsSound db
    → apply ticket_id now c db ≡ ok (o, db')
    → IsSound db' × HasAction c.run_id db'
apply-IsSound ticket_id now c db o db' s h = elim (apply-cases ticket_id now c db h) [
  | inl (prior, found, _, same) ↦
      let (m, here) = first-mem (is_action c.run_id) db.ticket_actions prior found in
      (rw same s, rw same (any_of_mem (is_action c.run_id) db.ticket_actions m here))
  | inr (mid, first_time, made, same) ↦
      let (_, _, _, actions, runs, _) =
        create_or_update-effect ticket_id now c.fingerprint db made in
      let row = action_row c.run_id c.fingerprint now o in
      (
        record {
          balanced = apply-IsBalanced ticket_id now c db s.balanced h;
          settled =
              rw same (rw (actions, runs) (settled-append db.ticket_actions row db.runs s.settled));
        },
        rw same (
            ground (
              arith,
              any-append (is_action c.run_id) mid.ticket_actions (row ∷ []),
              ==_refl c.run_id,
            )),
      )
]

finish-settled :
    (run : ℕ) (status : RunStatus) (c : Option Conclusion) (offset now : ℕ)
    (actions : List ActionRow) (r : RunRow)
    → any (is_action run) actions ≡ true
    → IsSettledRow actions r
    → IsSettledRow actions (if is_run run r then finish status c now offset r else r)
finish-settled run status c offset now actions r has h = elim (Bool-cases (is_run run r)) [
  | inr other_run ↦ rw other_run h
  | inl this_run ↦
      let id : r.run_id ≡ run = ground arith in
      rw this_run (λ done. subst (λ k. any (is_action k) actions ≡ true) (sym id) has)
]

-- Closing a run whose action is on record settles it.
pub close_run-IsSound :
    (run : ℕ) (status : RunStatus) (c : Option Conclusion) (offset now : ℕ) (db db' : Database)
    → IsSound db
    → HasAction run db
    → close_run run status c offset now db ≡ ok (tt, db')
    → IsSound db' × HasAction run db'
unfolding close_run
close_run-IsSound run status c offset now db db' s has h =
    let runs = update_where (is_run run) (finish status c now offset) db.runs in
    let same : db' ≡ record db { runs = runs } = ground arith in
    (
      rw same (record {
        balanced = IsBalanced-runs db runs s.balanced;
        settled =
            All-update_where (IsSettledRow db.ticket_actions) (IsSettledRow db.ticket_actions)
              (is_run run) (finish status c now offset)
              (λ r. finish-settled run status c offset now db.ticket_actions r has) db.runs
              s.settled;
      }),
      rw same has,
    )
