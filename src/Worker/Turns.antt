-- ===== src/Worker/Turns.antt =====
-- The worker between the awaits of one message (worker.py): what other tasks find of it, since any of
-- them may run where the worker waits.
use smokejumper.Prelude.{
  ℕ, zero, suc, ◌≡◌, refl, ap, true, false, Bool, Option, none, some, Text, lit, Result, ok, err,
  if◌then◌else◌,
}
use smokejumper.Contracts.Events.{AgentEvent}
use smokejumper.Contracts.Conclusions.{Conclusion, status_value}
use smokejumper.Persistence.{Wire, concluded}
use smokejumper.Queue.{Message}
use smokejumper.Receiver.Repository.{load}
use smokejumper.Intelligence.{triage}
use smokejumper.Recorder.{event, start_offset}
use smokejumper.Actions.{TicketOutcome, RunClaim, open_run, apply, close_run, is_concluded}
use smokejumper.Worker.{
  World, Env, Act, pure, continue, ◌>>=◌, transaction, record_act, transition_of, action_of,
  claimed_status, investigate, handle, ack, settle, process_event, process_loaded, process,
}

-- What the worker holds in its variables before each effect of a message.
pub data Pc : Type 0 where
  idle ended : Pc
  received opened noted : Message → AgentEvent → Pc
  triaged : Message → AgentEvent → Conclusion → Pc
  applied : Message → AgentEvent → Conclusion → TicketOutcome → Pc
  audited : Message → AgentEvent → Conclusion → ℕ → Pc
  handled : Message → Pc

-- An effect that raises ends the message, which is left pending.
abbrev pub next : {A : Type 0} → Result A → (A → Pc) → Pc
next (ok a) f = f a
next (err error) f = idle

-- An acknowledgement that raises is not caught: it ends `run_worker`.
abbrev pub acknowledged : Result (Unit {0}) → Pc
acknowledged (ok _) = idle
acknowledged (err error) = ended

abbrev pub after : {A : Type 0} → Act A → (A → Pc) → World → Pc × World
after m f w = (next (m w).0 f, (m w).1)

abbrev pub loaded_or_junk : Message → Result AgentEvent → Pc
loaded_or_junk m (ok e) = received m e
loaded_or_junk m (err error) = handled m

abbrev pub carried_or_empty : (Text → Text) → Message → Option Wire → Pc
carried_or_empty sha256_hex m none = handled m
carried_or_empty sha256_hex m (some raw) = loaded_or_junk m (load sha256_hex raw)

-- The worker takes a message: one without a valid event is only acknowledged.
unfoldable pub take : (Text → Text) → Message → Pc
take sha256_hex m = carried_or_empty sha256_hex m m.event

pub received-take :
    (sha256_hex : Text → Text) (m : Message) {raw : Wire} {e : AgentEvent}
    → m.event ≡ some raw
    → load sha256_hex raw ≡ ok e
    → take sha256_hex m ≡ received m e
unfolding take
received-take sha256_hex m carried loaded = rw (carried, loaded) refl

module _ (env : Env) where
  -- The next effect.
  unfoldable pub turn : Pc → World → Pc × World
  turn idle w = (idle, w)
  turn ended w = (ended, w)
  turn (received m e) w =
      after
        (transaction (env.db_up 0)
          (open_run e.id e.id e.fingerprint env.log_file (start_offset w.recorder) (env.clock 0)))
        (λ claim. if is_concluded claim.status then handled m else opened m e) w
  turn (opened m e) w =
      after (record_act env (env.clock 1) e.id (lit "worker") (event e)) (λ _. noted m e) w
  turn (noted m e) w =
      let c = triage env.uuid_text env.isoformat env.elapsed_ms e (some e.id) in
      after (record_act env (env.clock 2) e.id (lit "triage") (transition_of env c))
        (λ _. triaged m e c) w
  turn (triaged m e c) w =
      after (transaction (env.db_up 1) (apply env.fresh (env.clock 3) c)) (λ o. applied m e c o) w
  turn (applied m e c o) w =
      after (record_act env (env.clock 4) e.id (lit "actions") (action_of env o))
        (λ (_, end_offset). audited m e c end_offset) w
  turn (audited m e c end_offset) w =
      after (transaction (env.db_up 2) (close_run e.id concluded (some c) end_offset (env.clock 5)))
        (λ _. handled m) w
  turn (handled m) w = (acknowledged (ack env m.id w).0, (ack env m.id w).1)

  unfoldable pub turns : ℕ → Pc × World → Pc × World
  turns zero now = now
  turns (suc n) now = turns n (turn now.0 now.1)

  pub turns-idle : (n : ℕ) (w : World) → turns n (idle, w) ≡ (idle, w)
  unfolding turns turn
  turns-idle zero w = refl
  turns-idle (suc n) w = turns-idle n w

  turns-ended : (n : ℕ) (w : World) → turns n (ended, w) ≡ (ended, w)
  unfolding turns turn
  turns-ended zero w = refl
  turns-ended (suc n) w = turns-ended n w

  turns-acknowledged :
      (n : ℕ) (r : Result (Unit {0})) (w : World) → (turns n (acknowledged r, w)).1 ≡ w
  turns-acknowledged n (ok _) w = ap (λ (now : Pc × World). now.1) (turns-idle n w)
  turns-acknowledged n (err error) w = ap (λ (now : Pc × World). now.1) (turns-ended n w)

  module _ (m : Message) where
    abbrev settled : Result Text × World → World
    settled (r, w) = (settle env m.id r w).1

    -- From this point, `n` turns do what is left of `handle`, and settle the message.
    abbrev Does : ℕ → Pc → Act Text → Type 0
    Does n p k = (w : World) → (turns n (p, w)).1 ≡ settled (k w)

    Does-after :
        {A : Type 0} (n : ℕ) (a : Act A) (f : A → Pc) (k : A → Act Text)
        → ((x : A) → Does n (f x) (k x))
        → (w : World) → (turns n (after a f w)).1 ≡ settled ((a >>= k) w)
    Does-after {A} n a f k does w = by_result (a w).0 (a w).1
      where
        by_result :
            (r : Result A) (v : World) → (turns n (next r f, v)).1 ≡ settled (continue r k v)
        by_result (ok x) v = does x v
        by_result (err error) v = ap (λ (now : Pc × World). now.1) (turns-idle n v)

    Does-handled : (n : ℕ) (status : Text) → Does (suc n) (handled m) (pure status)
    unfolding turns turn
    Does-handled n status w = turns-acknowledged n (ack env m.id w).0 (ack env m.id w).1

    abbrev plus2 : ℕ → ℕ
    plus2 n = suc (suc n)

    -- The run is not concluded: five effects after the claim, and the acknowledgement.
    Does-investigate :
        (n : ℕ) (e : AgentEvent) → Does (plus2 (plus2 (plus2 n))) (opened m e) (investigate env e)
    unfolding turns turn investigate
    Does-investigate n e =
        let c = triage env.uuid_text env.isoformat env.elapsed_ms e (some e.id) in
        Does-after (suc (plus2 (plus2 n)))
          (record_act env (env.clock 1) e.id (lit "worker") (event e)) (λ _. noted m e) _
          λ _.
            Does-after (plus2 (plus2 n))
              (record_act env (env.clock 2) e.id (lit "triage") (transition_of env c))
              (λ _. triaged m e c) _
              λ _.
                Does-after (suc (plus2 n))
                  (transaction (env.db_up 1) (apply env.fresh (env.clock 3) c))
                  (λ o. applied m e c o) _
                  λ o.
                    Does-after (plus2 n)
                      (record_act env (env.clock 4) e.id (lit "actions") (action_of env o))
                      (λ (_, end_offset). audited m e c end_offset) _
                      λ written.
                        Does-after (suc n)
                          (transaction (env.db_up 2)
                            (close_run e.id concluded (some c) written.1 (env.clock 5)))
                          (λ _. handled m) _ λ _. Does-handled n (status_value c.status)

    -- The run may be concluded: then only the acknowledgement is left.
    Does-claimed :
        (n : ℕ) (e : AgentEvent) (status : Text) (done : Bool)
        → Does
            (plus2 (plus2 (plus2 n)))
            (if done then handled m else opened m e)
            (if done then pure status else investigate env e)
    Does-claimed n e status true = Does-handled (suc (plus2 (plus2 n))) status
    Does-claimed n e status false = Does-investigate n e

    Does-handle :
        (n : ℕ) (e : AgentEvent)
        → Does (suc (plus2 (plus2 (plus2 n)))) (received m e) (handle env e)
    unfolding turns turn handle
    Does-handle n e w =
        Does-after (plus2 (plus2 (plus2 n)))
          (transaction (env.db_up 0)
            (open_run e.id e.id e.fingerprint env.log_file (start_offset w.recorder) (env.clock 0)))
          (λ (claim : RunClaim). if is_concluded claim.status then handled m else opened m e) _
          (λ (claim : RunClaim).
            Does-claimed n e (claimed_status env claim.conclusion_status)
              (is_concluded claim.status))
          w

  -- The seven effects of a message, with nothing between them, are what `_process` does.
  pub turns-take :
      (sha256_hex : Text → Text) (m : Message) (w : World)
      → (turns 7 (take sha256_hex m, w)).1 ≡ (process sha256_hex env m w).1
  unfolding take process process_event turns turn
  turns-take sha256_hex m w = by_wire m.event
    where
      by_load :
          (r : Result AgentEvent)
          → (turns 7 (loaded_or_junk m r, w)).1 ≡ (process_loaded env m.id r w).1
      by_load (ok e) = Does-handle m 0 e w
      by_load (err error) = turns-acknowledged 6 (ack env m.id w).0 (ack env m.id w).1

      by_wire :
          (o : Option Wire)
          → (turns 7 (carried_or_empty sha256_hex m o, w)).1
            ≡ (elim o as (λ _. Act (Unit {0})) [
              | none ↦ ack env m.id
              | some raw ↦ process_loaded env m.id (load sha256_hex raw)
            ]
                w).1
      by_wire none = turns-acknowledged 6 (ack env m.id w).0 (ack env m.id w).1
      by_wire (some raw) = by_load (load sha256_hex raw)
