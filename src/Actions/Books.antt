-- ===== src/Actions/Books.antt =====
-- The transactions of actions/service.py keep the books sound, and leave the table of events alone.
use smokejumper.Prelude.{
  ℕ, ◌≡◌, ap, ◌∙◌, inl, inr, true, Option, List, [], ◌∷◌, Text, arith, ok, any-append,
}
use smokejumper.Contracts.Conclusions.{Conclusion}
use smokejumper.Persistence.{EventRow, RunStatus, Database}
use smokejumper.Actions.{
  TicketOutcome, RunClaim, open_run, apply, close_run, is_concluded, action_row, is_action,
}
use smokejumper.Actions.Tickets.{apply-cases, create_or_update-effect}
use smokejumper.Actions.Runs.{
  IsSound, HasAction, open_run-eq-ok, open_run-IsSound, apply-IsSound, close_run-IsSound,
}

-- Sound books beside a given table of events.
abbrev pub Books : List EventRow → Database → Type 0
Books rows db = IsSound db × (db.events ≡ rows)

abbrev events_of : Database → List EventRow
events_of db = db.events

module _ (rows : List EventRow) where
  pub open_run-Books :
      (run event : ℕ) (f log : Text) (offset now : ℕ) (db : Database) (claim : RunClaim)
      (db' : Database)
      → Books rows db
      → open_run run event f log offset now db ≡ ok (claim, db')
      → Books rows db' × (is_concluded claim.status ≡ true → HasAction run db')
  open_run-Books run event f log offset now db claim db' (sound, kept) h =
      let (_, _, _, same) = open_run-eq-ok run event f log offset now db h in
      let (sound', has) = open_run-IsSound run event f log offset now db claim db' sound h in
      ((sound', ap events_of same ∙ kept), has)

  pub apply-Books :
      (ticket_id now : ℕ) (c : Conclusion) (db : Database) (o : TicketOutcome) (db' : Database)
      → Books rows db
      → apply ticket_id now c db ≡ ok (o, db')
      → Books rows db' × HasAction c.run_id db'
  apply-Books ticket_id now c db o db' (sound, kept) h =
      let (sound', has) = apply-IsSound ticket_id now c db o db' sound h in
      ((sound', untouched ∙ kept), has)
    where
      untouched : db'.events ≡ db.events
      untouched = elim (apply-cases ticket_id now c db h) [
        | inl (_, _, _, same) ↦ ap events_of same
        | inr (mid, _, made, same) ↦
            let (_, _, _, _, _, events) =
              create_or_update-effect ticket_id now c.fingerprint db made in
            ap events_of same ∙ events
      ]

  pub close_run-Books :
      (run : ℕ) (status : RunStatus) (c : Option Conclusion) (offset now : ℕ) (db db' : Database)
      → Books rows db
      → HasAction run db
      → close_run run status c offset now db ≡ ok (tt, db')
      → Books rows db' × HasAction run db'
  unfolding close_run
  close_run-Books run status c offset now db db' (sound, kept) has h =
      let (sound', has') = close_run-IsSound run status c offset now db db' sound has h in
      let untouched : db'.events ≡ db.events = ground arith in ((sound', untouched ∙ kept), has')

-- No action is taken off the record.
abbrev pub KeepsActions : Database → Database → Type 0
KeepsActions db db' = (run : ℕ) → HasAction run db → HasAction run db'

pub open_run-KeepsActions :
    (run event : ℕ) (f log : Text) (offset now : ℕ) (db : Database) (claim : RunClaim)
    (db' : Database)
    → open_run run event f log offset now db ≡ ok (claim, db')
    → KeepsActions db db'
open_run-KeepsActions run event f log offset now db claim db' h other has =
    let (_, _, _, same) = open_run-eq-ok run event f log offset now db h in rw same has

pub apply-KeepsActions :
    (ticket_id now : ℕ) (c : Conclusion) (db : Database) (o : TicketOutcome) (db' : Database)
    → apply ticket_id now c db ≡ ok (o, db')
    → KeepsActions db db'
apply-KeepsActions ticket_id now c db o db' h other has = elim (apply-cases ticket_id now c db h) [
  | inl (_, _, _, same) ↦ rw same has
  | inr (mid, _, made, same) ↦
      let (_, _, _, actions, _, _) = create_or_update-effect ticket_id now c.fingerprint db made in
      let row = action_row c.run_id c.fingerprint now o in
      rw same
        (rw actions (ground (arith, any-append (is_action other) db.ticket_actions (row ∷ []))))
]

pub close_run-KeepsActions :
    (run : ℕ) (status : RunStatus) (c : Option Conclusion) (offset now : ℕ) (db db' : Database)
    → close_run run status c offset now db ≡ ok (tt, db')
    → KeepsActions db db'
unfolding close_run
close_run-KeepsActions run status c offset now db db' h other has =
    let same : db'.ticket_actions ≡ db.ticket_actions = ground arith in rw same has
