-- ===== src/System/Acknowledged.antt =====
-- The acknowledgements of the worker (worker.py) while requests, the outbox and it take turns.
use smokejumper.Prelude.{◌≡◌, refl, sym, subst, inl, inr, List, [], Text, All, All-imp}
use smokejumper.Persistence.{Database}
use smokejumper.Queue.{Message}
use smokejumper.Actions.Runs.{IsSound}
use smokejumper.Actions.Books.{KeepsActions}
use smokejumper.Receiver.Routes.{Libraries, Router}
use smokejumper.Worker.{Env}
use smokejumper.Worker.Turns.{idle, turn}
use smokejumper.Worker.Promises.{IsAnswered, IsAnswered-mono, Promise}
use smokejumper.Worker.Turned.{turn-acked}
use smokejumper.System.{
  System, world_of, Step, receiving, taking, turning, stopping, Reach, stay, then_step,
}
use smokejumper.System.Execution.{IsSteady, idle-IsSteady, turned, Receiving-Grows, Reach-IsSteady}
use smokejumper.System.Safety.{Anything}

module _ (sha256_hex : Text → Text) where
  -- The stream holds a message of this id, and the action of the event that it carries, if it carries
  -- one, is on record.
  abbrev pub IsDone : List Message → Database → Text → Type 0
  IsDone entries db id = (m : Message) × (m.id ≡ id) × IsAnswered sha256_hex entries m db

  abbrev pub AllDone : System → Type 0
  AllDone sys = All (IsDone sys.redis.entries sys.db) sys.acked

  IsDone-ledger :
      (entries : List Message) (db db' : Database)
      → KeepsActions db db'
      → (ids : List Text) → All (IsDone entries db) ids
      → All (IsDone entries db') ids
  IsDone-ledger entries db db' longer ids =
      All-imp (IsDone entries db) (IsDone entries db')
        (λ id (m, same, answered). (
          m,
          same,
          IsAnswered-mono sha256_hex entries entries db db' (λ n here. here) longer m answered,
        ))
        ids

module _ {Address Network : Type 0} (lib : Libraries Address Network)
    (router : Router Network) where
  turn-AllDone :
      (env : Env) (sys : System)
      → IsSteady lib.sha256_hex sys
      → AllDone lib.sha256_hex sys
      → (let w' = (turn env sys.worker (world_of sys)).1 in
          All (IsDone lib.sha256_hex sys.redis.entries w'.db) w'.acked)
  turn-AllDone env sys (sound, promise) done =
      let w' = (turn env sys.worker (world_of sys)).1 in
      let longer = (turned lib router Anything tt env sys (sound, promise)).longer in
      let kept =
        IsDone-ledger lib.sha256_hex sys.redis.entries sys.db w'.db longer sys.acked done in
      elim (turn-acked env sys.worker (world_of sys)) [
        | inl same ↦ subst (All (IsDone lib.sha256_hex sys.redis.entries w'.db)) (sym same) kept
        | inr (m, waiting, one_more) ↦
            let answered =
              subst (λ p. Promise lib.sha256_hex sys.redis.entries p sys.db) waiting promise in
            subst (All (IsDone lib.sha256_hex sys.redis.entries w'.db)) (sym one_more) (
              (
                m,
                refl,
                IsAnswered-mono lib.sha256_hex sys.redis.entries sys.redis.entries sys.db w'.db
                    (λ n here. here) longer m answered,
              ),
              kept,
            )
      ]

  Step-AllDone :
      {sys sys' : System}
      → Step lib router Anything sys sys'
      → IsSteady lib.sha256_hex sys
      → AllDone lib.sha256_hex sys
      → AllDone lib.sha256_hex sys'
  Step-AllDone (receiving sys {s = s} received) steady done =
      let grown = Receiving-Grows lib router Anything tt received in
      All-imp (IsDone lib.sha256_hex sys.redis.entries sys.db)
        (IsDone lib.sha256_hex s.redis.entries s.db)
        (λ id (m, same, answered). (
          m,
          same,
          IsAnswered-mono lib.sha256_hex sys.redis.entries s.redis.entries sys.db s.db
              grown.appended grown.longer m answered,
        ))
        sys.acked done
  Step-AllDone (taking m sys here at_rest) steady done = done
  Step-AllDone (turning env sys) steady done = turn-AllDone env sys steady done
  Step-AllDone (stopping sys) steady done = done

  Reach-AllDone :
      {start stop : System}
      → Reach lib router Anything start stop
      → IsSteady lib.sha256_hex start
      → AllDone lib.sha256_hex start
      → AllDone lib.sha256_hex stop
  Reach-AllDone (stay sys) steady done = done
  Reach-AllDone (then_step reached last) steady done =
      Step-AllDone last (Reach-IsSteady lib router Anything tt reached steady)
        (Reach-AllDone reached steady done)

  -- From sound books, an idle worker and no acknowledgement, in whatever order requests, their
  -- single transactions, offers of the outbox and the worker's effects follow each other, whatever
  -- fails in each, and wherever the worker is stopped and started again: for each id that was
  -- acknowledged the stream holds a message of this id, and if it carries a valid event, the ticket
  -- action of the event is on record.
  pub Reach-acknowledged :
      {start stop : System}
      → Reach lib router Anything start stop
      → IsSound start.db
      → start.worker ≡ idle
      → start.acked ≡ []
      → All (IsDone lib.sha256_hex stop.redis.entries stop.db) stop.acked
  Reach-acknowledged {start = start} reached sound at_rest none_yet =
      Reach-AllDone reached (idle-IsSteady lib.sha256_hex start sound at_rest)
        (subst (All (IsDone lib.sha256_hex start.redis.entries start.db)) (sym none_yet) tt)
