-- ===== src/Receiver/Delivery/Drain.antt =====
-- The dispatcher of receiver/delivery.py empties the outbox where Redis answers.
use mathlib.Core.List.{Memᴰ}
use smokejumper.Prelude.{
  ℕ, ◌≤◌, ◌≡◌, ◌⊎◌, Bool, true, false, Option, List, Text, All, not, ◌&&◌, ok,
}
use smokejumper.Contracts.Events.{AgentEvent}
use smokejumper.Persistence.{EventRow}
use smokejumper.Queue.{Attempt}
use smokejumper.Receiver.Repository.{
  has_id, load_column, mark_queued, is_pending, pending_queue_count,
}
use smokejumper.Receiver.Repository.Constraints.{IsValid}
use smokejumper.Receiver.Delivery.{Store, dispatch_event}

-- The event of an admitted row can be read back.
unfoldable pub IsLoadable : (Text → Text) → EventRow → Type 0
IsLoadable sha256_hex r =
    r.quarantined ≡ false → (e : AgentEvent) × (load_column sha256_hex r.payload ≡ ok e)

abbrev wanted : ℕ → EventRow → Bool
wanted event_id r = has_id event_id r && not r.quarantined

module _ (sha256_hex : Text → Text) (xadd : ℕ → Attempt) where
  -- The constraints of the table, and events that can be read back.
  pub record IsReady (rows : List EventRow) : Type 0 where
    pub valid : IsValid rows
    pub loadable : All (IsLoadable sha256_hex) rows

  -- What one dispatch does where Redis answers: nothing that is pending is left out.
  abbrev Dispatched : ℕ → ℕ → Store → Type 0
  Dispatched event_id now s =
      ((a : Option Text) × ((dispatch_event sha256_hex xadd event_id now s).0 ≡ ok a))
      × ((((dispatch_event sha256_hex xadd event_id now s).1.db ≡ s.db)
            × ((r : EventRow)
                → Memᴰ r s.db.events
                → has_id event_id r ≡ true
                → is_pending r ≡ false))
          ⊎ ((m : Text) × ((dispatch_event sha256_hex xadd event_id now s).1.db
                ≡ mark_queued event_id m now s.db)))

  -- What one dispatch, or several, does to the backlog where Redis answers.
  record IsProgress (before after : Store) : Type 0 where
    ready : IsReady after.db.events
    no_more : pending_queue_count after.db ≤ pending_queue_count before.db
