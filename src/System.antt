-- ===== src/System.antt =====
-- The composed service: the receiver's routes (receiver/routes.py), the outbox
-- (receiver/delivery.py) and the worker (worker.py) over one database, one stream and one audit
-- trail, in whatever order the event loop runs them.
pub mod Books
pub mod Stream
pub mod Growth
pub mod Execution
pub mod Acknowledged
pub mod Safety
pub mod Delivered
pub mod Lifecycle
use mathlib.Core.List.{Memᴰ}
use smokejumper.Prelude.{ℕ, ◌≡◌, List, Text, ok}
use smokejumper.Contracts.Events.{EventSource, AgentEvent}
use smokejumper.Queue.{Attempt, Message, Redis}
use smokejumper.Persistence.{Database}
use smokejumper.Recorder.{Recorder}
use smokejumper.Receiver.Repository.{Admission, dedupe_window, admit, quarantine, close_window}
use smokejumper.Receiver.Delivery.{Store, dispatch_event}
use smokejumper.Receiver.Routes.{Libraries, Router, Request, Outside, datadog_webhook, handler}
use smokejumper.Worker.{World, Env}
use smokejumper.Worker.Turns.{Pc, idle, take, turn}

pub record System : Type 0 where
  pub db : Database
  pub redis : Redis
  pub recorder : Recorder
  pub acked : List Text
  pub worker : Pc

-- What the receiver and the outbox see of it, and what the worker sees.
abbrev pub store_of : System → Store
store_of sys = record { db = sys.db; redis = sys.redis }

abbrev pub world_of : System → World
world_of sys = record { db = sys.db; recorder = sys.recorder; acked = sys.acked }

abbrev pub with_store : System → Store → System
with_store sys s = record sys { db = s.db; redis = s.redis }

abbrev pub with_world : System → World → System
with_world sys w = record sys { db = w.db; recorder = w.recorder; acked = w.acked }

abbrev pub with_turn : System → Pc × World → System
with_turn sys (p, w) = record (with_world sys w) { worker = p }

-- `Allows` restricts what may become of an attempt to deliver.
module _ {Address Network : Type 0} (lib : Libraries Address Network) (router : Router Network)
    (Allows : (ℕ → Attempt) → Type 0) where
  -- What the receiver and the outbox do: a request, or an offer of the outbox. A request also runs a
  -- transaction at a time, with any steps between them: an admission, a quarantine or the closing of
  -- a window, and offers.
  pub data Receiving : Store → Store → Type 0 where
    datadog_request :
        (out : Outside) (reason : Text) (request : Request) (s : Store)
        → Allows out.xadd
        → Receiving s (datadog_webhook lib router out reason request s).1
    source_request :
        (out : Outside) (source : EventSource) (reason : Text) (request : Request) (s : Store)
        → Allows out.xadd
        → Receiving s (handler lib router out source reason request s).1
    offer :
        (xadd : ℕ → Attempt) (event_id now : ℕ) (s : Store)
        → Allows xadd
        → Receiving s (dispatch_event lib.sha256_hex xadd event_id now s).1
    admission :
        (e : AgentEvent) (a : Admission) (db : Database) (s : Store)
        → admit dedupe_window e s.db ≡ ok (a, db)
        → Receiving s (record s { db = db })
    setting_aside :
        (id at : ℕ) (source : EventSource) (reason : Text) (db : Database) (s : Store)
        → quarantine id source at reason s.db ≡ ok (tt, db)
        → Receiving s (record s { db = db })
    closing :
        (f : Text) (at : ℕ) (s : Store) → Receiving s (record s { db = (close_window f at s.db).1 })

  -- One step: of the receiver or the outbox; a message of the stream, new or delivered before, that
  -- the idle worker takes; the next effect of the worker; or that the worker is stopped where it is,
  -- and started again within its process, which has one recorder. `run_worker` reads new messages
  -- only, so the relation has more executions than the code.
  pub data Step : System → System → Type 0 where
    receiving :
        (sys : System) {s : Store} → Receiving (store_of sys) s → Step sys (with_store sys s)
    taking :
        (m : Message) (sys : System)
        → Memᴰ m sys.redis.entries
        → sys.worker ≡ idle
        → Step sys (record sys { worker = take lib.sha256_hex m })
    turning :
        (env : Env) (sys : System) → Step sys (with_turn sys (turn env sys.worker (world_of sys)))
    stopping : (sys : System) → Step sys (record sys { worker = idle })

  pub data Reach : System → System → Type 0 where
    stay : (sys : System) → Reach sys sys
    then_step :
        {start middle stop : System} → Reach start middle → Step middle stop → Reach start stop
