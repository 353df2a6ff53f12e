-- ===== src/Worker/Loop.antt =====
-- src/smokejumper/worker.py: the consumer group, the loop over its batches, and the queue's depth.
use smokejumper.Prelude.{
  ◌≡◌, ◌≢◌, refl, inl, inr, true, Option-cases, List, [], ◌∷◌, Text, other, Result, ok, err, All,
}
use smokejumper.Contracts.Events.{AgentEvent}
use smokejumper.Queue.{Message}
use smokejumper.Receiver.Repository.{load}
use smokejumper.Actions.Runs.{IsSound}
use smokejumper.Worker.{
  World, Env, Act, pure, ◌>>◌, handle, ack, settle, process_event, process_loaded, process,
}
use smokejumper.Worker.Effects.{process-IsSound}

-- How `XGROUP CREATE` is answered.
pub data GroupReply : Type 0 where
  created busy_group refused_group : GroupReply

-- `ensure_group`: an existing group is as good as a new one.
unfoldable pub ensure_group : GroupReply → Act (Unit {0})
ensure_group created w = (ok tt, w)
ensure_group busy_group w = (ok tt, w)
ensure_group refused_group w = (err other, w)

-- One XREADGROUP: it fails, or delivers messages, each processed with the world as it then is.
pub data Poll : Type 0 where
  failed_poll : Poll
  batch : List (Env × Message) → Poll

module _ (sha256_hex : Text → Text) where
  -- The loop over a batch. An acknowledgement that raises ends the worker.
  unfoldable pub serve : List (Env × Message) → Act (Unit {0})
  serve [] = pure tt
  serve ((env, m) ∷ rest) = process sha256_hex env m >> serve rest

  -- The loop until `stop` is set; a poll that fails is tried again.
  unfoldable pub consume : List Poll → Act (Unit {0})
  consume [] = pure tt
  consume (failed_poll ∷ polls) = consume polls
  consume (batch messages ∷ polls) = serve messages >> consume polls

  unfoldable pub run_worker : GroupReply → List Poll → Act (Unit {0})
  run_worker reply polls = ensure_group reply >> consume polls

  -- Redis takes the acknowledgement of each message.
  abbrev pub Acknowledged : Env × Message → Type 0
  Acknowledged (env, m) = env.ack_up ≡ true

  abbrev pub AllAcknowledged : Poll → Type 0
  AllAcknowledged failed_poll = Unit
  AllAcknowledged (batch messages) = All Acknowledged messages

  -- Returning, with sound books.
  abbrev Lives : Act (Unit {0}) → Type 0
  Lives m = (w : World) → IsSound w.db → ((m w).0 ≡ ok tt) × IsSound (m w).1.db

  Lives-then : (m k : Act (Unit {0})) → Lives m → Lives k → Lives (m >> k)
  Lives-then m k first second w sound =
      let (returned, kept) = first w sound in rw returned (second (m w).1 kept)

  process-returns :
      (env : Env) (m : Message) (w : World)
      → env.ack_up ≡ true
      → (process sha256_hex env m w).0 ≡ ok tt
  unfolding process process_event ack
  process-returns env m w up = elim (Option-cases m.event) [
    | inl missing ↦ rw (missing, up) refl
    | inr (raw, carried) ↦ rw carried (by_load (load sha256_hex raw))
  ]
    where
      by_answer : (r : Result Text) (v : World) → (settle env m.id r v).0 ≡ ok tt
      by_answer (ok status) v = rw up refl
      by_answer (err error) v = refl

      by_load : (r : Result AgentEvent) → (process_loaded env m.id r w).0 ≡ ok tt
      by_load (err error) = rw up refl
      by_load (ok e) = by_answer (handle env e w).0 (handle env e w).1

  serve-Lives :
      (messages : List (Env × Message)) → All Acknowledged messages → Lives (serve messages)
  unfolding serve
  serve-Lives [] up = λ w sound. (refl, sound)
  serve-Lives ((env, m) ∷ rest) (up, ups) =
      Lives-then (process sha256_hex env m) (serve rest)
        (λ w sound. (process-returns env m w up, process-IsSound sha256_hex env m w sound))
        (serve-Lives rest ups)

  consume-Lives : (polls : List Poll) → All AllAcknowledged polls → Lives (consume polls)
  unfolding consume
  consume-Lives [] ups = λ w sound. (refl, sound)
  consume-Lives (failed_poll ∷ polls) (_, ups) = consume-Lives polls ups
  consume-Lives (batch messages ∷ polls) (up, ups) =
      Lives-then (serve messages) (consume polls) (serve-Lives messages up)
        (consume-Lives polls ups)

  -- The worker survives: whatever the messages hold, and wherever the database or the disk fails or
  -- a poll does, the loop raises nothing and keeps the tables sound, as long as the group can be
  -- had and Redis takes each acknowledgement.
  pub run_worker_lives :
      (reply : GroupReply) (polls : List Poll) (w : World)
      → reply ≢ refused_group
      → All AllAcknowledged polls
      → IsSound w.db
      → ((run_worker reply polls w).0 ≡ ok tt) × IsSound (run_worker reply polls w).1.db
  unfolding run_worker ensure_group
  run_worker_lives created polls w had ups sound = consume-Lives polls ups w sound
  run_worker_lives busy_group polls w had ups sound = consume-Lives polls ups w sound
  run_worker_lives refused_group polls w had ups sound = absurd (had refl)
