-- ===== src/Queue.antt =====
-- src/smokejumper/queue/producer.py: the `agentevents` stream of Redis.
--
-- `entries` is all that XADD has appended; how long Redis retains an entry (`maxlen`) is the
-- server's. What becomes of the n-th attempt is a parameter.
use smokejumper.Prelude.{
  ℕ, ◌+◌, Option, none, some, List, [], ◌∷◌, ◌++◌, Text, ◌==◌, Bool, true, false, if◌then◌else◌,
  Result, ok, err, other, ◌≡◌, ◌≢◌, arith,
}
use smokejumper.Contracts.Events.{AgentEvent}
use smokejumper.Persistence.{Wire, dumped, junk}

-- What becomes of one attempt to deliver: the XADD is answered and the receipt committed; it is
-- refused; it has appended, and its answer is lost on its way; or it is answered, and the
-- transaction fails before the receipt is committed (`mark_queued` or the COMMIT raises).
pub data Attempt : Type 0 where
  sent : Text → Attempt
  refused : Attempt
  lost : Text → Attempt
  unreceipted : Text → Attempt

-- A message with its one field, `event`.
pub record Message : Type 0 where
  pub id : Text
  pub event : Option Wire

pub record Redis : Type 0 where
  pub entries : List Message
  pub attempts : ℕ

abbrev pub message : Text → AgentEvent → Message
message id e = record { id = id; event = some (dumped e) }

abbrev pub append_reply : Attempt → AgentEvent → List Message → List Message
append_reply (sent id) e entries = entries ++ message id e ∷ []
append_reply refused e entries = entries
append_reply (lost id) e entries = entries ++ message id e ∷ []
append_reply (unreceipted id) e entries = entries ++ message id e ∷ []

abbrev pub answer : Attempt → Result Text
answer (sent id) = ok id
answer refused = err other
answer (lost id) = err other
answer (unreceipted id) = ok id

-- The transaction of the receipt commits where it is reached.
abbrev pub commits : Attempt → Bool
commits (unreceipted id) = false
commits (sent id) = true
commits refused = true
commits (lost id) = true

-- The stream gets an entry only together with its receipt.
abbrev pub DoesNotStray : Attempt → Type 0
DoesNotStray attempt = ((m : Text) → attempt ≢ lost m) × ((m : Text) → attempt ≢ unreceipted m)

module _ (xadd : ℕ → Attempt) where
  unfoldable pub publish : AgentEvent → Redis → Result Text × Redis
  publish e redis =
      let reply = xadd redis.attempts in
      (
        answer reply,
        record { entries = append_reply reply e redis.entries; attempts = redis.attempts + 1 },
      )

-- The message holds the event with this id.
abbrev pub carries : ℕ → Message → Bool
carries id m = elim m.event [
  | none ↦ false
  | some w ↦ elim w [ dumped e ↦ e.id == id | junk _ ↦ false ]
]

-- How often the event with this id was published.
unfoldable pub copies : ℕ → List Message → ℕ
copies id [] = 0
copies id (m ∷ ms) = (if carries id m then 1 else 0) + copies id ms

pub copies-append :
    (id : ℕ) (ms : List Message) (m : Message)
    → copies id (ms ++ m ∷ []) ≡ copies id ms + (if carries id m then 1 else 0)
unfolding copies
copies-append id [] m = omega arith
copies-append id (x ∷ ms) m = omega (arith, copies-append id ms m)
