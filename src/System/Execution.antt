-- ===== src/System/Execution.antt =====
-- What the steps of the receiver keep, and what the worker's effects do, along every execution.
-- A property of the events and the stream that the receiver's changes keep holds along every
-- execution, since the worker writes neither.
use mathlib.Core.List.{Memᴰ}
use smokejumper.Prelude.{
  ℕ, ◌≡◌, refl, sym, subst, inl, inr, Option, none, some, Text, List, Result, ok, err,
}
use smokejumper.Contracts.Events.{AgentEvent}
use smokejumper.Persistence.{Wire, EventRow, Database}
use smokejumper.Queue.{Attempt, refused, Redis, Message}
use smokejumper.Actions.Runs.{IsSound}
use smokejumper.Receiver.Repository.{load}
use smokejumper.Receiver.Delivery.{Store, dispatch_event}
use smokejumper.Receiver.Delivery.Outbox.{dispatch_event-cases}
use smokejumper.Receiver.Routes.{Libraries, Router}
use smokejumper.Receiver.Routes.Keeps.{IsKept, datadog_webhook-Keeps, handler-Keeps}
use smokejumper.Worker.{Env}
use smokejumper.Worker.Turns.{idle, take, carried_or_empty, loaded_or_junk, turn}
use smokejumper.Worker.Promises.{Promise, Promise-mono}
use smokejumper.Worker.Turned.{Turned, turn-Turned}
use smokejumper.System.{
  System, world_of, Receiving, datadog_request, source_request, offer, admission, setting_aside,
  closing, Step, receiving, taking, turning, stopping, Reach, stay, then_step,
}
use smokejumper.System.Books.{IsSound-IsKept}
use smokejumper.System.Growth.{Grows, Grows-IsKept}

dispatch_event-Keeps :
    (sha256_hex : Text → Text) (xadd : ℕ → Attempt) (I : Store → Type 0) (event_id now : ℕ)
    (s : Store)
    → IsKept sha256_hex xadd I
    → I s
    → I (dispatch_event sha256_hex xadd event_id now s).1
dispatch_event-Keeps sha256_hex xadd I event_id now s kept i =
    elim (dispatch_event-cases sha256_hex xadd event_id now s) [
      | inl same ↦ rw same i
      | inr (e, db, found, sends) ↦ rw sends (kept.sending event_id now e s db i found)
    ]

-- Redis takes nothing.
abbrev pub refusing : ℕ → Attempt
refusing n = refused

-- The books are sound, and what the worker promises where it is holds.
abbrev pub IsSteady : (Text → Text) → System → Type 0
IsSteady sha256_hex sys = IsSound sys.db × Promise sha256_hex sys.redis.entries sys.worker sys.db

pub idle-IsSteady :
    (sha256_hex : Text → Text) (sys : System)
    → IsSound sys.db
    → sys.worker ≡ idle
    → IsSteady sha256_hex sys
idle-IsSteady sha256_hex sys sound at_rest =
    (sound, subst (λ p. Promise sha256_hex sys.redis.entries p sys.db) (sym at_rest) tt)

take-Promise :
    (sha256_hex : Text → Text) (entries : List Message) (m : Message) (db : Database)
    → Memᴰ m entries
    → Promise sha256_hex entries (take sha256_hex m) db
unfolding take
take-Promise sha256_hex entries m db here = by_wire m.event refl
  where
    by_load :
        (raw : Wire)
        → m.event ≡ some raw
        → (r : Result AgentEvent) → load sha256_hex raw ≡ r
        → Promise sha256_hex entries (loaded_or_junk m r) db
    by_load raw carried (ok e) loaded = (here, (raw, carried, loaded))
    by_load raw carried (err error) failed = (here, λ e (raw', carried', loaded'). cc)

    by_wire :
        (o : Option Wire)
        → m.event ≡ o
        → Promise sha256_hex entries (carried_or_empty sha256_hex m o) db
    by_wire none missing = (here, λ e (raw', carried', loaded'). cc)
    by_wire (some raw) carried = by_load raw carried (load sha256_hex raw) refl

module _ {Address Network : Type 0} (lib : Libraries Address Network) (router : Router Network)
    (Allows : (ℕ → Attempt) → Type 0) (safe : Allows refusing) where
  -- A property of the store that each change of the receiver keeps.
  pub Receiving-Keeps :
      (I : Store → Type 0)
      → ((xadd : ℕ → Attempt) → Allows xadd → IsKept lib.sha256_hex xadd I)
      → {s s' : Store} → Receiving lib router Allows s s'
      → I s
      → I s'
  Receiving-Keeps I kept (datadog_request out reason request s allowed) i =
      datadog_webhook-Keeps I lib out (kept out.xadd allowed) router reason request s i
  Receiving-Keeps I kept (source_request out source reason request s allowed) i =
      handler-Keeps I lib out (kept out.xadd allowed) router source reason request s i
  Receiving-Keeps I kept (offer xadd event_id now s allowed) i =
      dispatch_event-Keeps lib.sha256_hex xadd I event_id now s (kept xadd allowed) i
  Receiving-Keeps I kept (admission e a db s h) i = (kept refusing safe).admitting e s a db i h
  Receiving-Keeps I kept (setting_aside id at source reason db s h) i =
      (kept refusing safe).quarantining id at source reason s db i h
  Receiving-Keeps I kept (closing f at s) i = (kept refusing safe).closing f at s i

  abbrev pub turned :
      (env : Env) (sys : System)
      → IsSteady lib.sha256_hex sys
      → Turned lib.sha256_hex sys.redis.entries sys.db.events sys.db
          (turn env sys.worker (world_of sys)).0
          (turn env sys.worker (world_of sys)).1.db
  turned env sys (sound, promise) =
      turn-Turned lib.sha256_hex sys.redis.entries sys.db.events env sys.worker (world_of sys)
        (sound, refl) promise

  pub Receiving-Grows : {s s' : Store} → Receiving lib router Allows s s' → Grows s s'
  Receiving-Grows {s = s} received =
      Receiving-Keeps (Grows s) (λ xadd _. Grows-IsKept lib.sha256_hex xadd s) received
        (record { appended = λ m here. here; longer = λ run has. has })

  Step-IsSteady :
      {sys sys' : System}
      → Step lib router Allows sys sys'
      → IsSteady lib.sha256_hex sys
      → IsSteady lib.sha256_hex sys'
  Step-IsSteady (receiving sys {s = s} received) (sound, promise) =
      let grown = Receiving-Grows received in
      (
        Receiving-Keeps (λ t. IsSound t.db) (λ xadd _. IsSound-IsKept lib.sha256_hex xadd) received
            sound,
        Promise-mono lib.sha256_hex sys.redis.entries s.redis.entries sys.db s.db grown.appended
            grown.longer sys.worker promise,
      )
  Step-IsSteady (taking m sys here at_rest) (sound, promise) =
      (sound, take-Promise lib.sha256_hex sys.redis.entries m sys.db here)
  Step-IsSteady (turning env sys) steady = let t = turned env sys steady in (t.books.0, t.promise)
  Step-IsSteady (stopping sys) (sound, promise) = (sound, tt)

  pub Reach-IsSteady :
      {start stop : System}
      → Reach lib router Allows start stop
      → IsSteady lib.sha256_hex start
      → IsSteady lib.sha256_hex stop
  Reach-IsSteady (stay sys) steady = steady
  Reach-IsSteady (then_step reached last) steady =
      Step-IsSteady last (Reach-IsSteady reached steady)

  module _ (J : List EventRow → Redis → Type 0)
      (kept : (xadd : ℕ → Attempt)
        → Allows xadd
        → IsKept lib.sha256_hex xadd (λ s. J s.db.events s.redis)) where
    step_keeps :
        {sys sys' : System}
        → Step lib router Allows sys sys'
        → IsSteady lib.sha256_hex sys
        → J sys.db.events sys.redis
        → J sys'.db.events sys'.redis
    step_keeps (receiving sys received) steady j =
        Receiving-Keeps (λ s. J s.db.events s.redis) kept received j
    step_keeps (taking m sys here at_rest) steady j = j
    step_keeps (turning env sys) steady j =
        subst (λ rows. J rows sys.redis) (sym (turned env sys steady).books.1) j
    step_keeps (stopping sys) steady j = j

    pub reach_keeps :
        {start stop : System}
        → Reach lib router Allows start stop
        → IsSteady lib.sha256_hex start
        → J start.db.events start.redis
        → J stop.db.events stop.redis
    reach_keeps (stay sys) steady j = j
    reach_keeps (then_step reached last) steady j =
        step_keeps last (Reach-IsSteady reached steady) (reach_keeps reached steady j)
