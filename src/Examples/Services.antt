-- ===== src/Examples/Services.antt =====
-- Executions of the composed service at which the theorems on all of its parts are applied.
use mathlib.Core.List.{Memᴰ}
use smokejumper.Prelude.{ℕ, ◌≡◌, refl, some, List, [], ◌∷◌, lit, ok, arith, All}
use smokejumper.Contracts.Events.{grafana}
use smokejumper.Persistence.{RunRow, concluded}
use smokejumper.Actions.{is_concluded, is_running}
use smokejumper.Actions.Runs.{IsSound, HasAction}
use smokejumper.Worker.Completes.{IsUp, process_completes}
use smokejumper.Worker.{World, process, ack}
use smokejumper.Worker.Loop.{Poll, failed_poll, batch, busy_group, run_worker, run_worker_lives}
use smokejumper.Worker.Again.{IsFinished, process_again}
use smokejumper.Receiver.Delivery.Outbox.{IsExact}
use smokejumper.Receiver.Routes.Invariants.{IsOrderly}
use smokejumper.Worker.Turns.{idle}
use smokejumper.System.{
  System, store_of, Reach, stay, then_step, datadog_request, source_request, offer, receiving,
  taking, turning,
}
use smokejumper.System.Acknowledged.{IsDone, Reach-acknowledged}
use smokejumper.System.Safety.{Anything, NoStray, Reach-IsOrderly, Reach-IsExact}
use smokejumper.Queue.{Attempt, unreceipted}
use smokejumper.System.Lifecycle.{Follows, phase, Reach-Follows}
use smokejumper.Examples.{one_event, acknowledging, constant_digest, run_of}
use smokejumper.Examples.Tables.{
  env, world, event_loads, first_message, recorder, one_event-IsSound, one_store-IsExact,
}
use smokejumper.Examples.Requests.{lib, router, signed, outside, one_store-IsOrderly}

abbrev quiet : System
quiet = record {
  db = one_event;
  redis = record { entries = []; attempts = 0 };
  recorder = recorder;
  acked = [];
  worker = idle;
}

-- The stream has delivered a message.
abbrev busy : System
busy = record quiet { redis = record { entries = first_message ∷ []; attempts = 1 } }

never_strays : NoStray acknowledging
never_strays n = (λ m h. cc h, λ m h. cc h)

-- A request, then an offer of the outbox.
abbrev accepting : (stop : System) × Reach lib router NoStray quiet stop
accepting = (
  _,
  then_step
      (then_step (stay quiet)
        (receiving quiet (datadog_request outside (lit "reason") signed _ never_strays)))
      (receiving _ (offer acknowledging 1 1100 _ never_strays)),
)

Reach-IsExact_example : IsExact accepting.0.db.events accepting.0.redis.entries
Reach-IsExact_example =
    Reach-IsExact lib router accepting.1 one_event-IsSound refl one_store-IsExact

-- Redis answers, and the transaction of the receipt fails.
abbrev rolling_back : ℕ → Attempt
rolling_back n = unreceipted (lit "0-9")

-- The event is published twice: its first receipt is rolled back.
abbrev twice : (stop : System) × Reach lib router Anything quiet stop
twice = (
  _,
  then_step (then_step (stay quiet) (receiving quiet (offer rolling_back 1 1050 _ tt)))
      (receiving _ (offer acknowledging 1 1100 _ tt)),
)

abbrev Execution : Type 0
Execution = (stop : System) × Reach lib router Anything busy stop

abbrev advance : Execution → Execution
advance (sys, reached) = (_, then_step reached (turning env sys))

abbrev claimed : Execution
claimed = advance (_, then_step (stay busy) (taking first_message busy (Memᴰ.head refl) refl))

-- A request comes between two effects of the worker.
abbrev interrupted : Execution
interrupted = (
  _,
  then_step claimed.1 (receiving _ (source_request outside grafana (lit "reason") signed _ tt)),
)

abbrev working : Execution
working = advance (advance (advance (advance (advance (advance interrupted)))))

Reach-acknowledged_example :
    All (IsDone constant_digest working.0.redis.entries working.0.db) working.0.acked
Reach-acknowledged_example = Reach-acknowledged lib router working.1 one_event-IsSound refl refl

Reach-IsOrderly_example : IsOrderly (store_of working.0) × IsSound working.0.db
Reach-IsOrderly_example =
    Reach-IsOrderly lib router working.1 one_store-IsOrderly one_event-IsSound refl

Reach-Follows_example : Follows (phase 1 busy.db.events) (phase 1 working.0.db.events)
Reach-Follows_example = Reach-Follows 1 lib router working.1 one_event-IsSound refl

env-IsUp : IsUp env
env-IsUp = record { database = λ n. refl; disk = λ n. refl; redis = refl }

process_completes_example :
    ((process constant_digest env first_message world).1.acked ≡ lit "1-0" ∷ [])
    × HasAction 1 (process constant_digest env first_message world).1.db
process_completes_example =
    process_completes constant_digest env first_message world env-IsUp one_event-IsSound refl
      (omega arith, (omega arith, tt)) refl event_loads

-- A batch of one message, after a poll that failed.
abbrev polls : List Poll
polls = failed_poll ∷ batch ((env, first_message) ∷ []) ∷ []

run_worker_lives_example :
    ((run_worker constant_digest busy_group polls world).0 ≡ ok tt)
    × IsSound (run_worker constant_digest busy_group polls world).1.db
run_worker_lives_example =
    run_worker_lives constant_digest busy_group polls world (λ same. cc same) (tt, ((refl, tt), tt))
      one_event-IsSound

abbrev finished_run : RunRow
finished_run = record (run_of 1) { status = concluded; finished_at = some 60 }

abbrev finished_world : World
finished_world = record world { db = record one_event { runs = finished_run ∷ [] } }

finished : IsFinished 1 finished_world.db.runs finished_run
unfolding is_concluded is_running
finished = record { found = refl; done = refl; stopped = (refl, tt) }

process_again_example :
    process constant_digest env first_message finished_world ≡ ack env (lit "1-0") finished_world
process_again_example =
    process_again constant_digest env first_message finished_world finished_run refl refl
      event_loads finished
