-- ===== src/Actions/Redelivery.antt =====
-- The first application of a run, and its redelivery (actions/service.py).
use smokejumper.Prelude.{
  ℕ, ◌≡◌, ◌∙◌, inl, inr, refl, ap, true, false, not, Bool-cases, Option-cases, none, [], ◌∷◌, ◌++◌,
  arith, any, text_eq_refl, ok, if◌then◌else◌, ==_refl,
}
use smokejumper.Contracts.Conclusions.{Conclusion}
use smokejumper.Persistence.{Database, is_open_ticket}
use smokejumper.Persistence.Table.{update_where, first, count_where, count-update_where}
use smokejumper.Actions.{
  TicketOutcome, is_run, is_action, is_ticket, replay, new_ticket, comment, action_row, apply,
}
use smokejumper.Actions.Tickets.{
  HasOneOpen, apply-cases, create_or_update-effect, count-append, count-zero, count-pos,
  first-append, apply-replay, apply-needs_run, update-open, create-new, apply-of_create,
}

-- With at most one open ticket of each fingerprint before, the first application of a run files a
-- ticket exactly when none of its fingerprint is open, and exactly one is open after.
pub apply_one_ticket :
    (ticket_id now : ℕ) (c : Conclusion) (db : Database) {o : TicketOutcome} {db' : Database}
    → HasOneOpen db.tickets
    → first (is_action c.run_id) db.ticket_actions ≡ none
    → apply ticket_id now c db ≡ ok (o, db')
    → (o.created ≡ not (any (is_open_ticket c.fingerprint) db.tickets))
      × (count_where (is_open_ticket c.fingerprint) db'.tickets ≡ 1)
apply_one_ticket ticket_id now c db one first_time h = elim (apply-cases ticket_id now c db h) [
  | inl (prior, found, _, _) ↦ cc
  | inr (mid, _, made, same) ↦
      let (created, _, tickets, _, _, _) =
        create_or_update-effect ticket_id now c.fingerprint db made in
      (created, rw same (counted mid tickets))
]
  where
    counted :
        (mid : Database)
        → mid.tickets ≡ (
            if any (is_open_ticket c.fingerprint) db.tickets
            then update_where (is_open_ticket c.fingerprint) comment db.tickets
            else db.tickets ++ new_ticket ticket_id c.fingerprint now ∷ [])
        → count_where (is_open_ticket c.fingerprint) mid.tickets ≡ 1
    counted mid e = elim (Bool-cases (any (is_open_ticket c.fingerprint) db.tickets)) [
      | inl open_one ↦ omega (
        arith,
        ap (count_where (is_open_ticket c.fingerprint)) (rw open_one at e),
        count-update_where (is_open_ticket c.fingerprint) (is_open_ticket c.fingerprint) comment
            (λ t. refl) db.tickets,
        one c.fingerprint,
        count-pos (is_open_ticket c.fingerprint) db.tickets open_one,
      )
      | inr shut ↦
          ap (count_where (is_open_ticket c.fingerprint)) (rw shut at e)
          ∙ ground (
            arith,
            count-append (is_open_ticket c.fingerprint) db.tickets
                (new_ticket ticket_id c.fingerprint now),
            count-zero (is_open_ticket c.fingerprint) db.tickets shut,
            text_eq_refl c.fingerprint,
          )
    ]

-- A conclusion that was applied once and is delivered again reads its first result back, marked
-- as replayed, and changes nothing, whatever fresh id and time it is offered.
pub apply_again :
    (ticket_id now fresh later : ℕ) (c : Conclusion) (db : Database) {o : TicketOutcome}
    {db' : Database}
    → apply ticket_id now c db ≡ ok (o, db')
    → apply fresh later c db' ≡ ok (record o { replayed = true }, db')
apply_again ticket_id now fresh later c db {o} {db'} h = elim (apply-cases ticket_id now c db h) [
  | inl (prior, found, answer, same) ↦
      ap (apply fresh later c) same
      ∙ apply-replay fresh later c db (apply-needs_run ticket_id now c db h) found
      ∙ ground arith
  | inr (mid, first_time, made, same) ↦
      let (_, _, _, same_actions, same_runs, _) =
        create_or_update-effect ticket_id now c.fingerprint db made in
      let exists : any (is_run c.run_id) db'.runs ≡ true =
        ap (λ (d : Database). any (is_run c.run_id) d.runs) same
        ∙ ap (any (is_run c.run_id)) same_runs
        ∙ apply-needs_run ticket_id now c db h in
      let row = action_row c.run_id c.fingerprint now o in
      apply-replay fresh later c db' exists (
        ap (λ (d : Database). first (is_action c.run_id) d.ticket_actions) same
        ∙ ap (λ rows. first (is_action c.run_id) (rows ++ row ∷ [])) same_actions
        ∙ first-append (is_action c.run_id) db.ticket_actions row first_time (==_refl c.run_id))
]

-- Applying a conclusion of a run that exists returns a result, if the id for a new ticket is
-- free.
pub apply_total :
    (ticket_id now : ℕ) (c : Conclusion) (db : Database)
    → any (is_run c.run_id) db.runs ≡ true
    → any (is_ticket ticket_id) db.tickets ≡ false
    → (o : TicketOutcome) × (db' : Database) × (apply ticket_id now c db ≡ ok (o, db'))
apply_total ticket_id now c db exists fresh =
    elim (Option-cases (first (is_action c.run_id) db.ticket_actions)) [
      | inr (prior, found) ↦ (replay prior, db, apply-replay ticket_id now c db exists found)
      | inl first_time ↦ elim (Bool-cases (any (is_open_ticket c.fingerprint) db.tickets)) [
        | inl open_one ↦
            let (t, _, e) = update-open ticket_id now c.fingerprint db open_one in
            (_, _, apply-of_create ticket_id now c db exists first_time e)
        | inr shut ↦ (
          _,
          _,
          apply-of_create ticket_id now c db exists first_time
              (create-new ticket_id now c.fingerprint db shut fresh),
        )
      ]
    ]
