-- ===== src/Actions/Ledger.antt =====
-- The ledger `ticket_actions` of actions/service.py: it accounts for every write of a ticket.
use smokejumper.Prelude.{
  ℕ, ◌+◌, ◌≤◌, ◌≡◌, inl, inr, refl, ap, subst, Bool, Bool-cases, List, [], ◌∷◌, ◌++◌, none, arith,
  ok, Text, length, length-append, any, if◌then◌else◌, ◌==◌,
}
use smokejumper.Contracts.Conclusions.{Conclusion}
use smokejumper.Persistence.{TicketRow, ActionRow, Database, is_open_ticket}
use smokejumper.Persistence.Table.{update_where, first, count_where}
use smokejumper.Actions.{TicketOutcome, is_action, new_ticket, comment, action_row, apply}
use smokejumper.Actions.Tickets.{
  HasOneOpen, apply-cases, apply-HasOneOpen, create_or_update-effect, count-pos,
}

-- The writes that the tickets show: the creation of each, and its updates.
unfoldable pub writes : List TicketRow → ℕ
writes [] = 0
writes (t ∷ ts) = 1 + t.update_count + writes ts

writes-append :
    (ts : List TicketRow) (t : TicketRow) → writes (ts ++ t ∷ []) ≡ writes ts + 1 + t.update_count
unfolding writes
writes-append [] t = omega arith
writes-append (s ∷ ts) t = omega (arith, writes-append ts t)

writes-comment :
    (p : TicketRow → Bool) (ts : List TicketRow)
    → writes (update_where p comment ts) ≡ writes ts + count_where p ts
unfolding writes
writes-comment p [] = omega arith
writes-comment p (t ∷ ts) = ground (arith, writes-comment p ts)

actions-append :
    (run : ℕ) (as_ : List ActionRow) (a : ActionRow)
    → count_where (is_action run) (as_ ++ a ∷ [])
      ≡ count_where (is_action run) as_ + (if is_action run a then 1 else 0)
actions-append run [] a = omega arith
actions-append run (b ∷ rows) a = omega (arith, actions-append run rows a)

actions-zero :
    (run : ℕ) (rows : List ActionRow)
    → first (is_action run) rows ≡ none
    → count_where (is_action run) rows ≡ 0
actions-zero run [] h = refl
actions-zero run (a ∷ rows) h = ground (arith, actions-zero run rows)

-- Each write of a ticket stands in the ledger once, no run has two entries there, and of each
-- incident at most one ticket is open.
pub record IsBalanced (db : Database) : Type 0 where
  pub balance : writes db.tickets ≡ length db.ticket_actions
  pub one_each : (run : ℕ) → count_where (is_action run) db.ticket_actions ≤ 1
  pub one_open : HasOneOpen db.tickets

-- The tickets after a first application show one write more.
writes-step :
    (ticket_id now : ℕ) (f : Text) (ts ts' : List TicketRow)
    → HasOneOpen ts
    → ts' ≡ (
        if any (is_open_ticket f) ts
        then update_where (is_open_ticket f) comment ts
        else ts ++ new_ticket ticket_id f now ∷ [])
    → writes ts' ≡ writes ts + 1
writes-step ticket_id now f ts ts' one e = elim (Bool-cases (any (is_open_ticket f) ts)) [
  | inl open_one ↦ omega (
    arith,
    ap writes (rw open_one at e),
    writes-comment (is_open_ticket f) ts,
    count-pos (is_open_ticket f) ts open_one,
    one f,
  )
  | inr shut ↦
      omega (arith, ap writes (rw shut at e), writes-append ts (new_ticket ticket_id f now))
]

ledger-one_each :
    (c : Conclusion) (now : ℕ) (o : TicketOutcome) (rows : List ActionRow)
    → first (is_action c.run_id) rows ≡ none
    → ((run : ℕ) → count_where (is_action run) rows ≤ 1)
    → (run : ℕ)
    → count_where (is_action run) (rows ++ action_row c.run_id c.fingerprint now o ∷ []) ≤ 1
ledger-one_each c now o rows first_time h run = elim (Bool-cases (c.run_id == run)) [
  | inl same ↦
      let e : c.run_id ≡ run = ground arith in
      ground (
        arith,
        actions-append run rows (action_row c.run_id c.fingerprint now o),
        actions-zero run rows (subst (λ k. first (is_action k) rows ≡ none) e first_time),
      )
  | inr differ ↦
      ground (arith, h run, actions-append run rows (action_row c.run_id c.fingerprint now o))
]

-- Applying a conclusion, for the first time or again, keeps the books balanced: as many writes of
-- tickets as entries in the ledger, at most one entry a run, at most one open ticket a
-- fingerprint.
pub apply-IsBalanced :
    (ticket_id now : ℕ) (c : Conclusion) (db : Database) {o : TicketOutcome} {db' : Database}
    → IsBalanced db
    → apply ticket_id now c db ≡ ok (o, db')
    → IsBalanced db'
apply-IsBalanced ticket_id now c db {o} b h = elim (apply-cases ticket_id now c db h) [
  | inl (_, _, _, same) ↦ rw same b
  | inr (mid, first_time, made, same) ↦
      let (_, _, tickets, actions, _, _) =
        create_or_update-effect ticket_id now c.fingerprint db made in
      let row = action_row c.run_id c.fingerprint now o in
      rw same (record {
        balance = omega (
          arith,
          writes-step ticket_id now c.fingerprint db.tickets mid.tickets b.one_open tickets,
          length-append mid.ticket_actions (row ∷ []),
          ap length actions,
          b.balance,
        );
        one_each =
            λ run. rw actions (ledger-one_each c now o db.ticket_actions first_time b.one_each run);
        one_open =
            subst (λ (d : Database). HasOneOpen d.tickets) same
              (apply-HasOneOpen ticket_id now c db b.one_open h);
      })
]
