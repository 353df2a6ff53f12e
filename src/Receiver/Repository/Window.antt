-- ===== src/Receiver/Repository/Window.antt =====
-- Closing a window (`close_window` of receiver/repository.py, and the trigger of migration 0004).
use smokejumper.Prelude.{
  ℕ, ◌≡◌, ◌≢◌, refl, ◌∙◌, ◌⊎◌, false, ◌++◌, none, some, List, [], ◌∷◌, arith, All, any, Text, ok,
}
use smokejumper.Contracts.Events.{AgentEvent}
use smokejumper.Persistence.{EventRow, TicketRow, Database}
use smokejumper.Persistence.Table.{update_where, count_where, any-update_where}
use smokejumper.Receiver.Repository.{
  is_open, is_candidate, has_id, new_row, admit, opened, shut_window, close_window,
}
use smokejumper.Receiver.Repository.Rows.{earliest_of_none}

shut-is_open : (f : Text) (at : ℕ) (r : EventRow) → is_open f (shut_window at r) ≡ false
unfolding is_open
shut-is_open f at r = ground arith

-- No row of the fingerprint is open once its window is closed.
closed_rows :
    (f : Text) (at : ℕ) (rows : List EventRow)
    → All (λ r. is_open f r ≡ false) (update_where (is_open f) (shut_window at) rows)
closed_rows f at [] = tt
closed_rows f at (r ∷ rows) = (ground (arith, shut-is_open f at r), closed_rows f at rows)

count-closed :
    (f : Text) (rows : List EventRow)
    → All (λ r. is_open f r ≡ false) rows
    → count_where (is_open f) rows ≡ 0
count-closed f [] h = refl
count-closed f (r ∷ rows) (h, hs) = ground (arith, count-closed f rows hs)

update-closed :
    (f : Text) (at : ℕ) (rows : List EventRow)
    → All (λ r. is_open f r ≡ false) rows
    → update_where (is_open f) (shut_window at) rows ≡ rows
update-closed f at [] h = refl
update-closed f at (r ∷ rows) (h, hs) = ground (arith, update-closed f at rows hs)

no_candidate :
    (window : ℕ) (e : AgentEvent) (rows : List EventRow)
    → All (λ r. is_open e.fingerprint r ≡ false) rows
    → All (λ r. is_candidate window e r ≡ false) rows
no_candidate window e [] h = tt
no_candidate window e (r ∷ rows) (h, hs) = (ground arith, no_candidate window e rows hs)

-- A delivery whose fingerprint has no open row becomes a new event, if its id is free.
admit-opened :
    (window : ℕ) (e : AgentEvent) (db : Database)
    → All (λ r. is_open e.fingerprint r ≡ false) db.events
    → any (has_id e.id) db.events ≡ false
    → admit window e db ≡ ok (opened e, record db { events = db.events ++ new_row e ∷ [] })
unfolding admit
admit-opened window e db h fresh =
    let missed =
      earliest_of_none (is_candidate window e) db.events (no_candidate window e db.events h) in
    ground arith

-- Closing a window a second time, at whatever time, reports no row and changes nothing.
close_window_idempotent :
    (f : Text) (at later : ℕ) (db : Database)
    → close_window f later (close_window f at db).1 ≡ (0, (close_window f at db).1)
unfolding close_window
close_window_idempotent f at later db =
    let shut = closed_rows f at db.events in
    ground (arith, count-closed f _ shut, update-closed f later _ shut)

-- After the window of its fingerprint is closed, the next delivery is admitted as a new event,
-- however soon it arrives, if its id is not taken.
pub admit-close_window :
    (window at : ℕ) (e : AgentEvent) (db : Database)
    → any (has_id e.id) db.events ≡ false
    → (db' : Database) × (admit window e (close_window e.fingerprint at db).1 ≡ ok (opened e, db'))
unfolding close_window
admit-close_window window at e db fresh = (
  _,
  admit-opened window e _ (closed_rows e.fingerprint at db.events) (
      any-update_where (has_id e.id) (is_open e.fingerprint) (shut_window at) (λ r. refl) db.events
      ∙ fresh),
)

-- What closing the window of `f` at a time makes of a ticket: an open one of `f` gets the time,
-- any other is as it was.
abbrev pub IsTrigger : Text → ℕ → TicketRow → TicketRow → Type 0
IsTrigger f at t t' =
    ((t.fingerprint ≡ f) × (t.closed_at ≡ none) × (t' ≡ record t { closed_at = some at }))
    ⊎ (((t.fingerprint ≢ f) ⊎ (t.closed_at ≢ none)) × (t' ≡ t))

-- Row by row.
abbrev pub Rowwise : (TicketRow → TicketRow → Type 0) → List TicketRow → List TicketRow → Type 0
Rowwise R [] [] = Unit
Rowwise R [] (t' ∷ ts') = ⊥
Rowwise R (t ∷ ts) [] = ⊥
Rowwise R (t ∷ ts) (t' ∷ ts') = R t t' × Rowwise R ts ts'
