-- ===== src/Stubs/Tickets.antt =====
-- src/smokejumper/ports/stubs.py: the life of a ticket in `FixtureTicketing`.
use smokejumper.Prelude.{
  ◌≡◌, refl, ap, inl, inr, true, false, Bool-cases, none, some, [], ◌∷◌, Text, text_eq,
  text_eq_refl, All, store, lookup-store_same, lookup-store_other, ok,
}
use smokejumper.Stubs.{
  TicketDraft, FixtureTicket, Tracker, open_ref, find_open_by_fingerprint, next_id, new_fixture,
  create, alter_by_ref, shut, close,
}

-- A ticket with the id is filed under the fingerprint.
abbrev pub IsOnlyUnder : Text → Text → Text × FixtureTicket → Type 0
IsOnlyUnder id f (key, ticket) = text_eq ticket.id id ≡ true → text_eq key f ≡ true

-- The ticket that has just been stored is the one that its id finds.
alter-store :
    (f : Text) (change : FixtureTicket → FixtureTicket) (ticket : FixtureTicket) (tracker : Tracker)
    → All (IsOnlyUnder ticket.id f) tracker
    → alter_by_ref ticket.id change (store f ticket tracker) ≡ ok (store f (change ticket) tracker)
unfolding alter_by_ref
alter-store f change ticket [] only = rw (text_eq_refl ticket.id) refl
alter-store f change ticket ((key, t) ∷ tracker) (here, only) = elim (Bool-cases (text_eq key f)) [
  | inl same ↦ rw (same, alter_by_ref) (rw (text_eq_refl ticket.id) refl)
  | inr other ↦ elim (Bool-cases (text_eq t.id ticket.id)) [
    | inl clash ↦ cc (here clash, other)
    | inr apart ↦
        rw (other, alter_by_ref) (rw (apart, alter-store f change ticket tracker only) refl)
  ]
]

-- The life of a ticket, where the id that it is given is not that of a ticket filed under another
-- fingerprint: once created it is the open ticket of its fingerprint, its reference closes it and
-- no ticket of its fingerprint is open then, and that of another fingerprint is as it was.
pub create-close :
    (draft : TicketDraft) (g : Text) (tracker : Tracker)
    → All (IsOnlyUnder (next_id tracker) draft.fingerprint) tracker
    → text_eq draft.fingerprint g ≡ false
    → (find_open_by_fingerprint draft.fingerprint (create draft tracker).1
        ≡ some (create draft tracker).0)
      × ((after : Tracker) × (close (create draft tracker).0 (create draft tracker).1 ≡ ok after)
          × (find_open_by_fingerprint draft.fingerprint after ≡ none)
          × (find_open_by_fingerprint g after ≡ find_open_by_fingerprint g tracker))
unfolding create close find_open_by_fingerprint
create-close draft g tracker only apart =
    let f = draft.fingerprint in
    let ticket = new_fixture tracker in
    (
      ap open_ref (lookup-store_same f ticket tracker),
      (
        store f (shut ticket) tracker,
        alter-store f shut ticket tracker only,
        ap open_ref (lookup-store_same f (shut ticket) tracker),
        ap open_ref (lookup-store_other f g (shut ticket) tracker apart),
      ),
    )
