-- ===== src/Actions/Tickets.antt =====
-- Exactly one ticket for an incident (actions/service.py).
use smokejumper.Prelude.{
  ℕ, ◌+◌, ◌≤◌, ◌≡◌, ◌⊎◌, ◌∙◌, inl, inr, refl, sym, ap, subst, Bool, true, false, not, Bool-cases,
  Option-cases, none, some, List, [], ◌∷◌, ◌++◌, arith, any, Text, text_eq, text_eq_iff, ok,
  >>=-eq-ok, ◌>>=◌, if◌then◌else◌,
}
use smokejumper.Contracts.Conclusions.{Conclusion}
use smokejumper.Persistence.{TicketRow, ActionRow, Database, is_open_ticket}
use smokejumper.Persistence.Table.{update_where, first, count_where, count-update_where}
use smokejumper.Actions.{
  TicketOutcome, is_run, is_action, is_ticket, replay, new_ticket, comment, created_outcome,
  updated_outcome, create_or_update, action_row, log_action, apply,
}

-- The partial unique index: of each fingerprint at most one ticket is open.
abbrev pub HasOneOpen : List TicketRow → Type 0
HasOneOpen ts = (f : Text) → count_where (is_open_ticket f) ts ≤ 1

pub count-append :
    (p : TicketRow → Bool) (ts : List TicketRow) (t : TicketRow)
    → count_where p (ts ++ t ∷ []) ≡ count_where p ts + (if p t then 1 else 0)
count-append p [] t = omega arith
count-append p (s ∷ ts) t = omega (arith, count-append p ts t)

pub count-zero :
    (p : TicketRow → Bool) (ts : List TicketRow) → any p ts ≡ false → count_where p ts ≡ 0
count-zero p [] h = refl
count-zero p (t ∷ ts) h = ground (arith, count-zero p ts)

pub count-pos :
    (p : TicketRow → Bool) (ts : List TicketRow) → any p ts ≡ true → 1 ≤ count_where p ts
count-pos p [] h = cc
count-pos p (t ∷ ts) h = ground (arith, count-pos p ts)

first-some :
    {Row : Type 0} (p : Row → Bool) (rows : List Row)
    → any p rows ≡ true
    → (r : Row) × (first p rows ≡ some r)
first-some p [] h = cc
first-some p (r ∷ rows) h = elim (Bool-cases (p r)) [
  | inl passes ↦ (r, rw passes)
  | inr fails ↦ let (s, found) = first-some p rows (rw fails at h) in (s, rw fails found)
]

pub first-none :
    {Row : Type 0} (p : Row → Bool) (rows : List Row) → first p rows ≡ none → any p rows ≡ false
first-none p [] h = refl
first-none p (r ∷ rows) h = ground (arith, first-none p rows)

pub first-append :
    {Row : Type 0} (p : Row → Bool) (rows : List Row) (r : Row)
    → first p rows ≡ none
    → p r ≡ true
    → first p (rows ++ r ∷ []) ≡ some r
first-append p [] r h k = rw k
first-append p (s ∷ rows) r h k = ground (arith, first-append p rows r)

module _ (ticket_id now : ℕ) (f : Text) (db : Database) where
  -- No ticket is open: a new one is filed.
  pub create-new :
      any (is_open_ticket f) db.tickets ≡ false
      → any (is_ticket ticket_id) db.tickets ≡ false
      → create_or_update ticket_id now f db
        ≡ ok (
          created_outcome (new_ticket ticket_id f now),
          record db { tickets = db.tickets ++ new_ticket ticket_id f now ∷ [] },
        )
  unfolding create_or_update
  create-new shut fresh = ground arith

  -- One is open: it is commented on, and the error after a conflict cannot occur.
  pub update-open :
      any (is_open_ticket f) db.tickets ≡ true
      → (t : TicketRow) × (first (is_open_ticket f) db.tickets ≡ some t)
        × (create_or_update ticket_id now f db
            ≡ ok (
              updated_outcome t,
              record db { tickets = update_where (is_open_ticket f) comment db.tickets },
            ))
  unfolding create_or_update
  update-open open_one =
      let (t, found) = first-some (is_open_ticket f) db.tickets open_one in (t, found, ground arith)

  -- What a first application does to the tickets, whichever way it goes.
  pub create_or_update-effect :
      {o : TicketOutcome} {db' : Database}
      → create_or_update ticket_id now f db ≡ ok (o, db')
      → (o.created ≡ not (any (is_open_ticket f) db.tickets))
        × (o.replayed ≡ false)
        × (db'.tickets ≡ (
            if any (is_open_ticket f) db.tickets
            then update_where (is_open_ticket f) comment db.tickets
            else db.tickets ++ new_ticket ticket_id f now ∷ []))
        × (db'.ticket_actions ≡ db.ticket_actions)
        × (db'.runs ≡ db.runs)
        × (db'.events ≡ db.events)
  unfolding create_or_update
  create_or_update-effect h =
      (ground arith, ground arith, ground arith, ground arith, ground arith, ground arith)

new_ticket-open : (id now : ℕ) (f g : Text) → is_open_ticket g (new_ticket id f now) ≡ text_eq f g
new_ticket-open id now f g = ground arith

HasOneOpen-create :
    (id now : ℕ) (f : Text) (ts : List TicketRow)
    → any (is_open_ticket f) ts ≡ false
    → HasOneOpen ts
    → HasOneOpen (ts ++ new_ticket id f now ∷ [])
HasOneOpen-create id now f ts shut h g = elim (Bool-cases (text_eq f g)) [
  | inl same ↦
      let e : f ≡ g = (text_eq_iff f g).0 same in
      let none_open =
        count-zero (is_open_ticket g) ts (subst (λ k. any (is_open_ticket k) ts ≡ false) e shut) in
      ground (arith, count-append (is_open_ticket g) ts (new_ticket id f now))
  | inr differ ↦ ground (arith, h g, count-append (is_open_ticket g) ts (new_ticket id f now))
]

module _ (ticket_id now : ℕ) (c : Conclusion) (db : Database) where
  apply-first :
      any (is_run c.run_id) db.runs ≡ true
      → first (is_action c.run_id) db.ticket_actions ≡ none
      → (create_or_update ticket_id now c.fingerprint db >>= log_action now c)
        ≡ apply ticket_id now c db
  unfolding apply
  apply-first exists first_time = rw (exists, first_time, apply)

  pub apply-of_create :
      {o : TicketOutcome} {mid : Database}
      → any (is_run c.run_id) db.runs ≡ true
      → first (is_action c.run_id) db.ticket_actions ≡ none
      → create_or_update ticket_id now c.fingerprint db ≡ ok (o, mid)
      → apply ticket_id now c db ≡ log_action now c (o, mid)
  apply-of_create exists first_time made =
      sym (apply-first exists first_time) ∙ ap (λ r. r >>= log_action now c) made

  pub apply-replay :
      {prior : ActionRow}
      → any (is_run c.run_id) db.runs ≡ true
      → first (is_action c.run_id) db.ticket_actions ≡ some prior
      → apply ticket_id now c db ≡ ok (replay prior, db)
  unfolding apply
  apply-replay exists found = rw (exists, found, apply)

  pub apply-needs_run :
      {o : TicketOutcome} {db' : Database}
      → apply ticket_id now c db ≡ ok (o, db')
      → any (is_run c.run_id) db.runs ≡ true
  unfolding apply
  apply-needs_run h = elim (Bool-cases (any (is_run c.run_id) db.runs)) [
    | inl exists ↦ exists
    | inr missing ↦ cc (rw (missing, apply) at h)
  ]

  -- The two ways in which a conclusion is applied: read back, or applied for the first time.
  pub apply-cases :
      {o : TicketOutcome} {db' : Database}
      → apply ticket_id now c db ≡ ok (o, db')
      → ((prior : ActionRow) × (first (is_action c.run_id) db.ticket_actions ≡ some prior)
          × (o ≡ replay prior)
          × (db' ≡ db))
        ⊎ ((mid : Database) × (first (is_action c.run_id) db.ticket_actions ≡ none)
            × (create_or_update ticket_id now c.fingerprint db ≡ ok (o, mid))
            × (db' ≡ record mid {
              ticket_actions = mid.ticket_actions ++ action_row c.run_id c.fingerprint now o ∷ [];
            }))
  unfolding apply
  apply-cases {o} {db'} h = elim (Bool-cases (any (is_run c.run_id) db.runs)) [
    | inr missing ↦ cc (rw (missing, apply) at h)
    | inl exists ↦ elim (Option-cases (first (is_action c.run_id) db.ticket_actions)) [
      | inl first_time ↦
          let ((o₁, mid), made, answer) =
            >>=-eq-ok (create_or_update ticket_id now c.fingerprint db) (log_action now c)
              (apply-first exists first_time ∙ h) in
          inr (mid, first_time, made ∙ ground arith, ground arith)
      | inr (prior, found) ↦ inl (prior, found, ground arith, ground arith)
    ]
  ]

-- Whatever conclusions are applied, at most one ticket of each incident is open.
pub apply-HasOneOpen :
    (ticket_id now : ℕ) (c : Conclusion) (db : Database) {o : TicketOutcome} {db' : Database}
    → HasOneOpen db.tickets
    → apply ticket_id now c db ≡ ok (o, db')
    → HasOneOpen db'.tickets
apply-HasOneOpen ticket_id now c db one h = elim (apply-cases ticket_id now c db h) [
  | inl (_, _, _, same) ↦ rw same one
  | inr (mid, _, made, same) ↦
      rw same (effect_one mid (create_or_update-effect ticket_id now c.fingerprint db made).2)
]
  where
    effect_one :
        (mid : Database)
        → mid.tickets ≡ (
            if any (is_open_ticket c.fingerprint) db.tickets
            then update_where (is_open_ticket c.fingerprint) comment db.tickets
            else db.tickets ++ new_ticket ticket_id c.fingerprint now ∷ [])
        → HasOneOpen mid.tickets
    effect_one mid e = elim (Bool-cases (any (is_open_ticket c.fingerprint) db.tickets)) [
      | inl open_one ↦ λ g. omega (
        arith,
        ap (count_where (is_open_ticket g)) (rw open_one at e),
        count-update_where (is_open_ticket g) (is_open_ticket c.fingerprint) comment (λ t. refl)
            db.tickets,
        one g,
      )
      | inr shut ↦
          subst HasOneOpen (sym (rw shut at e))
            (HasOneOpen-create ticket_id now c.fingerprint db.tickets shut one)
    ]
