-- ===== src/Receiver/Routes.antt =====
-- src/smokejumper/receiver/routes.py: one delivery, from its verification to its answer.
--
-- A handler runs on the store. Whether the database answers in each transaction, what Redis answers,
-- the fresh identifiers, the clock and the parsers of the standard library are parameters.
pub mod Keeps
pub mod Invariants
pub mod Answers
use smokejumper.Prelude.{
  ℕ, suc, ◌+◌, Bool, true, false, Option, none, some, List, [], ◌∷◌, Text, lit, is_empty, Error,
  value_error, other, Result, ok, err, if◌then◌else◌,
}
use smokejumper.Contracts.Json.{Json, Fields}
use smokejumper.Contracts.Events.{
  EventSource, grafana, alertmanager, datadog, pagerduty, generic, Severity, Entity, AgentEvent,
}
use smokejumper.Persistence.{Database, Tx, begin}
use smokejumper.Queue.{Attempt}
use smokejumper.Receiver.Repository.{Admission, dedupe_window, admit, quarantine, close_window}
use smokejumper.Receiver.Delivery.{Store, dispatch_event}
use smokejumper.Receiver.Verification.{
  Headers, verify_shared_token, verify_hmac_signature, verify_pagerduty_signature, verify_source_ip,
}
use smokejumper.Receiver.Normalizers.{object_or_empty}
use smokejumper.Receiver.Normalizers.Datadog.{normalize, is_recovery}
use smokejumper.Receiver.Normalizers.Sources.{
  normalize_pagerduty, resolved_pagerduty, normalize_grafana, resolved_grafana,
  normalize_alertmanager, resolved_alertmanager, normalize_generic,
}

-- What the handlers use of the code outside the repository.
pub record Libraries (Address Network : Type 0) : Type 0 where
  pub sha256_hex : Text → Text
  pub hmac_sha256 : Text → Text → Text
  pub ip_address : Text → Option Address
  pub contains : Network → Address → Bool
  pub loads : Text → Result Json
  pub render : Json → Text
  pub int_of : Text → Option (Bool × ℕ)
  pub fromtimestamp : ℕ → Result ℕ
  pub fromisoformat : Text → Option ℕ

-- `build_router`'s arguments.
pub record Router (Network : Type 0) : Type 0 where
  pub datadog_secret : Text
  pub source_secrets : EventSource → Text
  pub alertmanager_allowlist : List Network

pub record Request : Type 0 where
  pub headers : Headers
  pub client_host : Option Text
  pub body : Text

-- What the outside world does during one request. The n-th transaction finds the database up or not;
-- `fresh` and `fresh_resolved` are identifiers that `uuid4` returns.
pub record Outside : Type 0 where
  pub now : ℕ
  pub db_up : ℕ → Bool
  pub xadd : ℕ → Attempt
  pub fresh : ℕ → ℕ
  pub fresh_resolved : ℕ → ℕ
  pub fresh_quarantined : ℕ

pub data Delivered : Type 0 where
  duplicate : ℕ → Text → ℕ → Option Text → Delivered
  accepted : ℕ → Text → Severity → Option Text → Delivered

-- The bodies of the answers: 401 for `unverified`, 202 for the others.
pub data Answer : Type 0 where
  unverified : Answer
  quarantined : Text → Answer
  recovered : Text → ℕ → Answer
  delivered : Delivered → List Entity → Answer
  ignored : ℕ → Answer
  processed : ℕ → List Delivered → Answer

-- `"published" if message_id else "pending"`
unfoldable pub queue_status : Option Text → Text
queue_status none = lit "pending"
queue_status (some m) = if is_empty m then lit "pending" else lit "published"

-- A coroutine on the store: what it has changed stays changed when it raises.
abbrev pub Handler : Type 0 → Type 0
Handler A = Store → Result A × Store

abbrev pub give : {A : Type 0} → A → Handler A
give a s = (ok a, s)

abbrev pub throw : {A : Type 0} → Error → Handler A
throw error s = (err error, s)

abbrev pub proceed : {A B : Type 0} → Result A → (A → Handler B) → Handler B
proceed (ok a) f s = f a s
proceed (err error) f s = (err error, s)

infixl 5 ◌>>=◌
abbrev pub ◌>>=◌ : {A B : Type 0} → Handler A → (A → Handler B) → Handler B
◌>>=◌ m f s = proceed (m s).0 f (m s).1

-- `async with engine.begin()`
unfoldable pub transaction : {A : Type 0} → Bool → Tx A → Handler A
unfolding begin
transaction up m s =
    if up then ((begin m s.db).0, record s { db = (begin m s.db).1 }) else (err other, s)

abbrev pub close_tx : Text → ℕ → Tx ℕ
close_tx f closed_at db = ok (close_window f closed_at db)

-- The answer of `_admit_and_publish_one`.
abbrev pub reply : AgentEvent → Admission → Option Text → Delivered
reply e a message_id =
    if a.is_duplicate
    then duplicate a.event_id a.fingerprint a.dedupe_count message_id
    else accepted a.event_id a.fingerprint e.severity message_id

-- The `except Exception` around the dispatch.
abbrev pub receipt : Result (Option Text) → Option Text
receipt (ok message_id) = message_id
receipt (err error) = none

module _ {Address Network : Type 0} (lib : Libraries Address Network) where
  -- The dispatch of a request; its transaction may find no database.
  unfoldable pub dispatch : Bool → (ℕ → Attempt) → ℕ → ℕ → Handler (Option Text)
  dispatch up xadd event_id now s =
      let sent = if up then dispatch_event lib.sha256_hex xadd event_id now s else (err other, s) in
      (ok (receipt sent.0), sent.1)

  -- `_admit_and_publish_one`
  unfoldable pub admit_and_publish_one :
      (ℕ → Bool) → (ℕ → Attempt) → ℕ → AgentEvent → Handler Delivered
  admit_and_publish_one up xadd now e = do
    admission ← transaction (up 0) (admit dedupe_window e)
    message_id ← dispatch (up 1) xadd admission.event_id now
    give (reply e admission message_id)

  -- `_admit_and_enqueue`: two transactions for each event.
  unfoldable pub admit_and_enqueue :
      (ℕ → Bool) → (ℕ → Attempt) → ℕ → List AgentEvent → Handler (List Delivered)
  admit_and_enqueue up xadd now [] = give []
  admit_and_enqueue up xadd now (e ∷ es) = do
    result ← admit_and_publish_one up xadd now e
    results ← admit_and_enqueue (λ n. up (suc (suc n))) xadd now es
    give (result ∷ results)

  -- The loop over the resolved events, and what it leaves of the transactions.
  unfoldable pub close_windows : (ℕ → Bool) → ℕ → List AgentEvent → Handler (ℕ × (ℕ → Bool))
  close_windows up now [] = give (0, up)
  close_windows up now (e ∷ es) = do
    closed ← transaction (up 0) (close_tx e.fingerprint now)
    (more, up') ← close_windows (λ n. up (suc n)) now es
    give (closed + more, up')

  -- The `except (ValueError, TypeError)` around the parsing; `reason` is the exception's text.
  abbrev pub or_quarantine :
      {A : Type 0} → Outside → EventSource → Text → Result A → (A → Handler Answer) → Handler Answer
  or_quarantine out source reason (ok a) f = f a
  or_quarantine out source reason (err other) f = throw other
  or_quarantine out source reason (err value_error) f = do
    _ ← transaction (out.db_up 0) (quarantine out.fresh_quarantined source out.now reason)
    give (quarantined reason)

  -- A failed check answers 401; a check that raises is a server error.
  abbrev pub when_verified : Result Bool → Handler Answer → Handler Answer
  when_verified (ok true) m = m
  when_verified (ok false) m = give unverified
  when_verified (err error) m = throw error

  abbrev pub parse_datadog : Outside → Text → Result (Json × AgentEvent)
  parse_datadog out body = elim (lib.loads body) [
    | err error ↦ err error
    | ok payload ↦
        elim (normalize lib.render lib.int_of lib.fromtimestamp lib.sha256_hex (out.fresh 0) payload
          out.now) [ err error ↦ err error | ok e ↦ ok (payload, e) ]
  ]

  abbrev pub with_entities : AgentEvent → Delivered → Answer
  with_entities e (duplicate id f n m) = delivered (duplicate id f n m) []
  with_entities e (accepted id f s m) = delivered (accepted id f s m) e.entities

  -- A parsed Datadog delivery: a recovery closes the window, anything else is admitted.
  unfoldable pub deliver_datadog : Outside → Json × AgentEvent → Handler Answer
  deliver_datadog out (payload, e) =
      if is_recovery lib.render lib.int_of lib.fromtimestamp (object_or_empty (some payload))
      then (transaction (out.db_up 0) (close_tx e.fingerprint out.now) >>= λ closed.
          give (recovered e.fingerprint closed))
      else (admit_and_publish_one out.db_up out.xadd out.now e >>= λ result.
          give (with_entities e result))

  unfoldable pub datadog_webhook : Router Network → Outside → Text → Request → Handler Answer
  datadog_webhook router out reason request =
      when_verified (verify_shared_token request.headers router.datadog_secret)
        (or_quarantine out datadog reason (parse_datadog out request.body) (deliver_datadog out))

  -- The check that `_register` gives each source.
  unfoldable pub verified : Router Network → EventSource → Request → Result Bool
  verified router alertmanager request = ok (
      verify_source_ip lib.ip_address lib.contains request.client_host
        router.alertmanager_allowlist)
  verified router pagerduty request =
      verify_pagerduty_signature lib.hmac_sha256 request.body request.headers
        (router.source_secrets pagerduty)
  verified router generic request =
      verify_hmac_signature lib.hmac_sha256 request.body request.headers
        (router.source_secrets generic)
  verified router source request =
      verify_shared_token request.headers (router.source_secrets source)

  -- The normalizer that `_register` gives each source.
  unfoldable pub firing_events : Outside → EventSource → Json → Result (List AgentEvent)
  firing_events out pagerduty payload =
      normalize_pagerduty lib.render lib.fromisoformat lib.sha256_hex (out.fresh 0) payload out.now
  firing_events out grafana payload =
      normalize_grafana lib.render lib.fromisoformat lib.sha256_hex out.fresh payload out.now
  firing_events out alertmanager payload =
      normalize_alertmanager lib.render lib.fromisoformat lib.sha256_hex out.fresh payload out.now
  firing_events out _ payload =
      normalize_generic lib.render lib.fromisoformat lib.sha256_hex (out.fresh 0) payload out.now

  -- `resolution_normalizers`
  unfoldable pub resolved_events : Outside → EventSource → Json → Result (List AgentEvent)
  resolved_events out pagerduty payload =
      resolved_pagerduty lib.render lib.fromisoformat lib.sha256_hex (out.fresh_resolved 0) payload
        out.now
  resolved_events out grafana payload =
      resolved_grafana lib.render lib.fromisoformat lib.sha256_hex out.fresh_resolved payload
        out.now
  resolved_events out alertmanager payload =
      resolved_alertmanager lib.render lib.fromisoformat lib.sha256_hex out.fresh_resolved payload
        out.now
  resolved_events out _ payload = ok []

  abbrev pub parse_source :
      Outside → EventSource → Text → Result (List AgentEvent × List AgentEvent)
  parse_source out source body = elim (lib.loads body) [
    | err error ↦ err error
    | ok payload ↦ elim (firing_events out source payload) [
      | err error ↦ err error
      | ok firing ↦ elim (resolved_events out source payload) [
        | err error ↦ err error
        | ok resolved ↦ ok (firing, resolved)
      ]
    ]
  ]

  -- A parsed delivery: the resolved events close their windows, then the firing ones are admitted.
  unfoldable pub deliver_source : Outside → List AgentEvent × List AgentEvent → Handler Answer
  deliver_source out (firing, resolved) =
      close_windows out.db_up out.now resolved >>= λ (closed, up). elim firing [
        | [] ↦ give (ignored closed)
        | e ∷ es ↦ admit_and_enqueue up out.xadd out.now (e ∷ es) >>= λ results.
            give (processed closed results)
      ]

  unfoldable pub handler : Router Network → Outside → EventSource → Text → Request → Handler Answer
  handler router out source reason request =
      when_verified (verified router source request) (
        or_quarantine out source reason (parse_source out source request.body) (deliver_source out))
