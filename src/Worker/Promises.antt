-- ===== src/Worker/Promises.antt =====
-- What holds in the database between the awaits of a message (worker.py).
use mathlib.Core.List.{Memᴰ}
use smokejumper.Prelude.{◌≡◌, subst, some, List, Text, ok}
use smokejumper.Contracts.Events.{AgentEvent}
use smokejumper.Persistence.{Wire, Database}
use smokejumper.Queue.{Message}
use smokejumper.Receiver.Repository.{load}
use smokejumper.Actions.Runs.{HasAction}
use smokejumper.Actions.Books.{KeepsActions}
use smokejumper.Worker.Turns.{
  Pc, idle, ended, received, opened, noted, triaged, applied, audited, handled,
}

module _ (sha256_hex : Text → Text) where
  abbrev pub Loads : Message → AgentEvent → Type 0
  Loads m e = (raw : Wire) × (m.event ≡ some raw) × (load sha256_hex raw ≡ ok e)

  -- The action of the event that the message carries is on record, if it carries one.
  abbrev pub IsRecorded : Message → Database → Type 0
  IsRecorded m db = (e : AgentEvent) → Loads m e → HasAction e.id db

  module _ (entries : List Message) where
    abbrev pub Taken : Message → AgentEvent → Type 0
    Taken m e = Memᴰ m entries × Loads m e

    abbrev pub IsAnswered : Message → Database → Type 0
    IsAnswered m db = Memᴰ m entries × IsRecorded m db

    abbrev pub Promise : Pc → Database → Type 0
    Promise idle db = Unit
    Promise ended db = Unit
    Promise (received m e) db = Taken m e
    Promise (opened m e) db = Taken m e
    Promise (noted m e) db = Taken m e
    Promise (triaged m e c) db = Taken m e × (c.run_id ≡ e.id)
    Promise (applied m e c o) db = Taken m e × HasAction e.id db
    Promise (audited m e c end_offset) db = Taken m e × HasAction e.id db
    Promise (handled m) db = IsAnswered m db

  -- A longer ledger and a longer stream break no promise.
  module _ (entries entries' : List Message) (db db' : Database)
      (appended : (m : Message) → Memᴰ m entries → Memᴰ m entries')
      (longer : KeepsActions db db') where
    pub IsAnswered-mono : (m : Message) → IsAnswered entries m db → IsAnswered entries' m db'
    IsAnswered-mono m (here, h) = (appended m here, λ e l. longer e.id (h e l))

    pub Promise-mono : (p : Pc) → Promise entries p db → Promise entries' p db'
    Promise-mono idle h = h
    Promise-mono ended h = h
    Promise-mono (received m e) (here, l) = (appended m here, l)
    Promise-mono (opened m e) (here, l) = (appended m here, l)
    Promise-mono (noted m e) (here, l) = (appended m here, l)
    Promise-mono (triaged m e c) ((here, l), same) = ((appended m here, l), same)
    Promise-mono (applied m e c o) ((here, l), has) = ((appended m here, l), longer e.id has)
    Promise-mono (audited m e c end_offset) ((here, l), has) =
        ((appended m here, l), longer e.id has)
    Promise-mono (handled m) h = IsAnswered-mono m h

  pub Loads-IsRecorded :
      (m : Message) (e : AgentEvent) (db : Database)
      → Loads m e
      → HasAction e.id db
      → IsRecorded m db
  Loads-IsRecorded m e db (raw, carried, loaded) has e' (raw', carried', loaded') =
      let one_wire : raw ≡ raw' = cc in
      let one_event : e ≡ e' = cc in subst (λ (d : AgentEvent). HasAction d.id db) one_event has
