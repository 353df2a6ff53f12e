-- ===== src/Stubs.antt =====
-- src/smokejumper/ports/stubs.py: the substitutes of the ports, with the types of their contracts
-- (contracts/ticketing.py).
pub mod Tickets
use smokejumper.Prelude.{
  ℕ, zero, suc, ◌+◌, Bool, true, false, not, ◌&&◌, Option, none, some, List, [], ◌∷◌, ◌++◌, map,
  Text, lit, length, take, text_eq, lookup, store, Error, other, Result, ok, err, if◌then◌else◌,
}
use smokejumper.Contracts.Json.{decimal, Fields}
use smokejumper.Contracts.Conclusions.{ConclusionStatus}

pub data TicketProvider : Type 0 where
  linear github jira asana : TicketProvider

pub record TicketRef : Type 0 where
  pub provider : TicketProvider
  pub external_id : Text
  pub url : Option Text

pub record TicketDraft : Type 0 where
  pub fingerprint : Text
  pub run_id : ℕ
  pub title : Text
  pub body_md : Text

pub record TicketUpdate : Type 0 where
  pub run_id : ℕ
  pub comment_md : Text
  pub status : Option ConclusionStatus

pub record FixtureTicket : Type 0 where
  pub id : Text
  pub closed : Bool
  pub updates : List TicketUpdate

-- `FixtureTicketing.tickets`, by fingerprint.
abbrev pub Tracker : Type 0
Tracker = List (Text × FixtureTicket)

-- `_ref`
abbrev pub ref_of : FixtureTicket → TicketRef
ref_of ticket = record { provider = linear; external_id = ticket.id; url = none }

abbrev pub open_ref : Option FixtureTicket → Option TicketRef
open_ref none = none
open_ref (some ticket) = if ticket.closed then none else some (ref_of ticket)

unfoldable pub find_open_by_fingerprint : Text → Tracker → Option TicketRef
find_open_by_fingerprint fingerprint tracker = open_ref (lookup fingerprint tracker)

-- `f"FIXTURE-{len(self.tickets) + 1}"`
unfoldable pub next_id : Tracker → Text
unfolding decimal
next_id tracker = lit "FIXTURE-" ++ decimal (length tracker + 1)

abbrev pub new_fixture : Tracker → FixtureTicket
new_fixture tracker = record { id = next_id tracker; closed = false; updates = [] }

unfoldable pub create : TicketDraft → Tracker → TicketRef × Tracker
create draft tracker =
    (ref_of (new_fixture tracker), store draft.fingerprint (new_fixture tracker) tracker)

-- `_by_ref`, with what is done to the ticket that it finds: the first with the reference's id.
-- Without one it raises `KeyError`.
unfoldable pub alter_by_ref : Text → (FixtureTicket → FixtureTicket) → Tracker → Result Tracker
alter_by_ref id change [] = err other
alter_by_ref id change ((key, ticket) ∷ rest) =
    let changed = alter_by_ref id change rest in
    if text_eq ticket.id id
    then ok ((key, change ticket) ∷ rest)
    else elim changed [ err error ↦ err error | ok rest' ↦ ok ((key, ticket) ∷ rest') ]

abbrev pub commented : TicketUpdate → FixtureTicket → FixtureTicket
commented update ticket = record ticket { updates = ticket.updates ++ update ∷ [] }

abbrev pub shut : FixtureTicket → FixtureTicket
shut ticket = record ticket { closed = true }

unfoldable pub update : TicketRef → TicketUpdate → Tracker → Result Tracker
unfolding alter_by_ref
update ref change tracker = alter_by_ref ref.external_id (commented change) tracker

unfoldable pub close : TicketRef → Tracker → Result Tracker
unfolding alter_by_ref
close ref tracker = alter_by_ref ref.external_id shut tracker

-- `RecordedModel`; a float is its `repr`.
pub record RecordedModel : Type 0 where
  pub completions : List Text
  pub embedding_dimension : ℕ

-- `complete`: the next completion, or a `LookupError`.
unfoldable pub complete : RecordedModel → Result Text × RecordedModel
complete model = elim model.completions [
  | [] ↦ (err other, model)
  | completion ∷ rest ↦ (ok completion, record model { completions = rest })
]

abbrev zeros : ℕ → List Text
zeros zero = []
zeros (suc n) = lit "0.0" ∷ zeros n

unfoldable pub embed : RecordedModel → List Text → List (List Text)
embed model texts = map (λ text. zeros model.embedding_dimension) texts

-- `FixturePlatform`
pub record FixturePlatform : Type 0 where
  pub written : List Fields
  pub assets : List Fields

unfoldable pub query_assets : Fields → FixturePlatform → List Fields
query_assets query platform = platform.assets

unfoldable pub write_finding : Fields → FixturePlatform → FixturePlatform
write_finding finding platform = record platform { written = platform.written ++ finding ∷ [] }

-- `FakeChannel.sent`
pub record SentMessage : Type 0 where
  pub channel_id : Text
  pub text : Text
  pub thread_ts : Option Text

-- `FakeChannel.send`: the message's timestamp, and what has been sent.
unfoldable pub send : SentMessage → List SentMessage → Text × List SentMessage
send message sent = (decimal (length sent) ++ lit ".000000", sent ++ message ∷ [])

-- `InMemoryStore` for a limit that is not negative.
unfoldable pub search_episodes : ℕ → List Fields → List Fields
search_episodes limit episodes = take limit episodes

unfoldable pub write_episode : Fields → List Fields → List Fields
write_episode episode episodes = episodes ++ episode ∷ []

-- `AllowAll`, but for the token that it mints at random.
unfoldable pub verify_inbound : Text → List (Text × Text) → Text → Bool
verify_inbound source headers body = true

unfoldable pub consume_approval_token : Text → Text → Bool
consume_approval_token token binding = true
