-- ===== src/System/Delivered.antt =====
-- Delivery at least once: what a receipt in the table of events stands for in the stream, whatever
-- fails (receiver/delivery.py, receiver/repository.py).
use mathlib.Core.List.Memᴰ
use mathlib.Core.List.{Memᴰ}
use smokejumper.Prelude.{◌≡◌, ◌⊎◌, none, some, List, All}
use smokejumper.Contracts.Events.{AgentEvent}
use smokejumper.Persistence.{dumped, EventRow}
use smokejumper.Queue.{Message}
use smokejumper.Receiver.Delivery.Outbox.{IsKeyed}
use smokejumper.System.{System}

-- The receipt of a row, if it has one, is the id of an entry that holds an event with the row's id.
abbrev pub IsHeld : List Message → EventRow → Type 0
IsHeld entries r =
    (r.queue_message_id ≡ none)
    ⊎ ((m : Message) × (e : AgentEvent) × Memᴰ m entries
        × (r.queue_message_id ≡ some m.id)
        × (m.event ≡ some (dumped e))
        × (e.id ≡ r.id))

-- Stored events are filed under their own ids, and no receipt is without its entry.
pub record IsDelivered (rows : List EventRow) (entries : List Message) : Type 0 where
  pub keyed : All IsKeyed rows
  pub held : All (IsHeld entries) rows
