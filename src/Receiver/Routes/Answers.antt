-- ===== src/Receiver/Routes/Answers.antt =====
-- Who may change the store, and what an admitted event is answered (receiver/routes.py).
use mathlib.Core.List.{Memᴰ}
use smokejumper.Prelude.{
  ℕ, ◌≡◌, ◌≢◌, ◌⊎◌, inl, inr, refl, sym, subst, ap, ◌∙◌, Bool, true, false, Bool-cases, Option,
  none, some, [], ◌++◌, Text, lit, split, strip, Error, Result, ok, err,
}
use smokejumper.Contracts.Events.{
  EventSource, grafana, alertmanager, datadog, pagerduty, generic, slack, scheduled, AgentEvent,
}
use smokejumper.Persistence.{Database, Tx}
use smokejumper.Persistence.Commit.{begin-ok}
use smokejumper.Queue.{Attempt}
use smokejumper.Receiver.Repository.{Admission, dedupe_window, admit}
use smokejumper.Receiver.Delivery.{Store, dispatch_event}
use smokejumper.Receiver.Delivery.Receipts.{IsReceipted, dispatch_event-IsReceipted}
use smokejumper.Receiver.Verification.{Headers, header, verify_shared_token}
use smokejumper.Receiver.Verification.Schemes.{
  verify_shared_token_sound, verify_hmac_signature_sound, verify_pagerduty_signature_sound,
  verify_source_ip_sound,
}
use smokejumper.Receiver.Routes.{
  Libraries, Router, Request, Outside, Delivered, duplicate, accepted, Answer, unverified, Handler,
  give, proceed, ◌>>=◌, transaction, reply, dispatch, admit_and_publish_one, when_verified,
  datadog_webhook, verified, handler,
}

-- The token header carries the secret, and there is one.
abbrev pub HasToken : Headers → Text → Type 0
HasToken headers secret = (secret ≢ []) × (header headers (lit "X-Smokejumper-Token") ≡ some secret)

-- The store is as it was, and the answer is 401 or an exception.
abbrev pub IsRefused : Result Answer × Store → Store → Type 0
IsRefused r s = (r.1 ≡ s) × ((r.0 ≡ ok unverified) ⊎ ((error : Error) × (r.0 ≡ err error)))

transaction-ok :
    {A : Type 0} (m : Tx A) (s : Store) {a : A} {db' : Database}
    → m s.db ≡ ok (a, db')
    → transaction true m s ≡ (ok a, record s { db = db' })
unfolding transaction
transaction-ok {A} m s {a} {db'} h =
    ap (λ (r : Result A × Database). (r.0, record s { db = r.1 })) (begin-ok m s.db h)

-- The answer reports the admission and the message id.
abbrev pub IsReported : AgentEvent → Admission → Option Text → Result Delivered → Type 0
IsReported e a message_id answer =
    ((a.is_duplicate ≡ true)
      × (answer ≡ ok (duplicate a.event_id a.fingerprint a.dedupe_count message_id)))
    ⊎ ((a.is_duplicate ≡ false)
        × (answer ≡ ok (accepted a.event_id a.fingerprint e.severity message_id)))

reply-IsReported :
    (e : AgentEvent) (a : Admission) (message_id : Option Text)
    → IsReported e a message_id (ok (reply e a message_id))
reply-IsReported e a message_id = elim (Bool-cases a.is_duplicate) [
  | inl again ↦ inl (again, rw again refl)
  | inr first ↦ inr (first, rw first refl)
]

module _ {Address Network : Type 0} (lib : Libraries Address Network) where
  -- What the documentation of each source asks of a request: an address in an allowed network, or
  -- a signature or a token under a secret that is configured.
  abbrev pub HasCredential : Router Network → EventSource → Request → Type 0
  HasCredential router alertmanager request =
      (host : Text) × (peer : Address) × (network : Network) × (request.client_host ≡ some host)
      × (host ≢ [])
      × (lib.ip_address host ≡ some peer)
      × Memᴰ network router.alertmanager_allowlist
      × (lib.contains network peer ≡ true)
  HasCredential router pagerduty request =
      let secret = router.source_secrets pagerduty in
      (secret ≢ [])
      × ((presented part : Text) × (header request.headers (lit "X-PagerDuty-Signature")
            ≡ some presented)
          × Memᴰ part (split b',' presented)
          × (strip part ≡ lit "v1=" ++ lib.hmac_sha256 secret request.body))
  HasCredential router generic request =
      let secret = router.source_secrets generic in
      (secret ≢ [])
      × (header request.headers (lit "X-Smokejumper-Signature")
          ≡ some (lit "sha256=" ++ lib.hmac_sha256 secret request.body))
  HasCredential router grafana request = HasToken request.headers (router.source_secrets grafana)
  HasCredential router datadog request = HasToken request.headers (router.source_secrets datadog)
  HasCredential router slack request = HasToken request.headers (router.source_secrets slack)
  HasCredential router scheduled request =
      HasToken request.headers (router.source_secrets scheduled)

  verified-HasCredential :
      (router : Router Network) (source : EventSource) (request : Request)
      → verified lib router source request ≡ ok true
      → HasCredential router source request
  unfolding verified
  verified-HasCredential router alertmanager request h =
      verify_source_ip_sound lib.ip_address lib.contains request.client_host
        router.alertmanager_allowlist (cc h)
  verified-HasCredential router pagerduty request h =
      verify_pagerduty_signature_sound lib.hmac_sha256 request.body request.headers
        (router.source_secrets pagerduty) h
  verified-HasCredential router generic request h =
      verify_hmac_signature_sound lib.hmac_sha256 request.body request.headers
        (router.source_secrets generic) h
  verified-HasCredential router grafana request h =
      verify_shared_token_sound request.headers (router.source_secrets grafana) h
  verified-HasCredential router datadog request h =
      verify_shared_token_sound request.headers (router.source_secrets datadog) h
  verified-HasCredential router slack request h =
      verify_shared_token_sound request.headers (router.source_secrets slack) h
  verified-HasCredential router scheduled request h =
      verify_shared_token_sound request.headers (router.source_secrets scheduled) h

  when_verified_cases :
      {P : Type 0} (check : Result Bool) (m : Handler Answer) (s : Store)
      → (check ≡ ok true → P)
      → P ⊎ IsRefused (when_verified lib check m s) s
  when_verified_cases (ok true) m s passes = inl (passes refl)
  when_verified_cases (ok false) m s passes = inr (refl, inl refl)
  when_verified_cases (err error) m s passes = inr (refl, inr (error, refl))

  -- A request to the Datadog route carries the configured token, and a request to any other route
  -- the credential of its source (the token, the HMAC of its body under the configured secret, or
  -- an address in an allowed network); or it is answered 401 or raises, and neither the database
  -- nor the stream has changed.
  pub handler_refuses :
      (router : Router Network) (out : Outside) (reason : Text) (request : Request) (s : Store)
      → (HasToken request.headers router.datadog_secret
          ⊎ IsRefused (datadog_webhook lib router out reason request s) s)
        × ((source : EventSource)
            → HasCredential router source request
              ⊎ IsRefused (handler lib router out source reason request s) s)
  unfolding datadog_webhook handler
  handler_refuses router out reason request s = (
    when_verified_cases (verify_shared_token request.headers router.datadog_secret) _ s
        (verify_shared_token_sound request.headers router.datadog_secret),
    λ source.
        when_verified_cases (verified lib router source request) _ s
          (verified-HasCredential router source request),
  )

  -- What the offer after an admission comes to: the database is down, and the store is as the
  -- admission left it; or the offer raises and no id is known; or it returns an id, if any, which is
  -- the receipt of a row with the event's id.
  abbrev pub IsOffered : Bool → Result (Option Text) × Store → Store → Option Text → Store → Type 0
  IsOffered up offered committed message_id final =
      ((up ≡ false) × (message_id ≡ none) × (final ≡ committed))
      ⊎ ((up ≡ true)
          × (final ≡ offered.1)
          × (((error : Error) × (offered.0 ≡ err error) × (message_id ≡ none))
              ⊎ (offered.0 ≡ ok message_id)))

  -- What follows the admission.
  abbrev then_dispatch :
      (ℕ → Bool)
      → (ℕ → Attempt)
      → ℕ
      → AgentEvent
      → Result Admission × Store
      → Result Delivered × Store
  then_dispatch up xadd now e r =
      proceed r.0
        (λ admission. dispatch lib (up 1) xadd admission.event_id now >>= λ message_id.
          give (reply e admission message_id))
        r.1

  module _ (up : ℕ → Bool) (xadd : ℕ → Attempt) (now : ℕ) where
    abbrev offer : ℕ → Store → Result (Option Text) × Store
    offer event_id s = dispatch_event lib.sha256_hex xadd event_id now s

    abbrev Outcome : ℕ → Store → Result (Option Text) × Store → Type 0
    Outcome event_id s d =
        (message_id : Option Text) × (d.0 ≡ ok message_id)
        × IsOffered (up 1) (offer event_id s) s message_id d.1
        × IsReceipted event_id message_id d.1.db.events

    abbrev Answered : AgentEvent → Admission → Store → Result Delivered × Store → Type 0
    Answered e a s r =
        (message_id : Option Text) × IsReported e a message_id r.0
        × IsOffered (up 1) (offer a.event_id s) s message_id r.1
        × IsReceipted a.event_id message_id r.1.db.events

    dispatch-Outcome :
        (event_id : ℕ) (s : Store) → Outcome event_id s (dispatch lib (up 1) xadd event_id now s)
    unfolding dispatch
    dispatch-Outcome event_id s = elim (Bool-cases (up 1)) [
      | inr down ↦ (none, rw down refl, inl (down, refl, rw down refl), tt)
      | inl answers ↦ by_offer answers (offer event_id s).0 refl
    ]
      where
        by_offer :
            up 1 ≡ true
            → (r : Result (Option Text)) → (offer event_id s).0 ≡ r
            → Outcome event_id s (dispatch lib (up 1) xadd event_id now s)
        by_offer answers (ok message_id) h = (
          message_id,
          rw (answers, h) refl,
          inr (answers, rw answers refl, inr h),
          rw answers (dispatch_event-IsReceipted lib.sha256_hex xadd event_id now s message_id h),
        )
        by_offer answers (err error) h =
            (none, rw (answers, h) refl, inr (answers, rw answers refl, inl (error, h, refl)), tt)

    -- Where the first transaction finds the database up and the admission succeeds, the request is
    -- answered, whatever happens to the offer after it: as a duplicate with the count of deliveries,
    -- or as accepted with the severity. It names no message id and leaves the store as the admission
    -- left it where the database is then down; else the store is as the offer leaves it, and the
    -- answer names no id where the offer raises, and the id that it returns otherwise. An id that is
    -- named is on record, in that store, as the receipt of a row with the event's id.
    pub admit_and_publish_one_answers :
        (e : AgentEvent) (s : Store) {a : Admission} {db' : Database}
        → up 0 ≡ true
        → admit dedupe_window e s.db ≡ ok (a, db')
        → (let (answer, final) = admit_and_publish_one lib up xadd now e s in
            let committed = record s { db = db' } in
            (message_id : Option Text) × IsReported e a message_id answer
            × IsOffered
                (up 1)
                (dispatch_event lib.sha256_hex xadd a.event_id now committed)
                committed
                message_id
                final
            × IsReceipted a.event_id message_id final.db.events)
    unfolding admit_and_publish_one
    admit_and_publish_one_answers e s {a} {db'} answers admitted =
        let m = admit dedupe_window e in
        let committed : transaction (up 0) m s ≡ (ok a, record s { db = db' }) =
          ap (λ t. transaction t m s) answers ∙ transaction-ok m s admitted in
        let whole = ap (then_dispatch up xadd now e) committed in
        let (message_id, sent, offered, receipted) =
          dispatch-Outcome a.event_id (record s { db = db' }) in
        subst (Answered e a (record s { db = db' })) (sym whole) (
          subst
            (λ r.
              Answered e a (record s { db = db' })
                (proceed r (λ id. give (reply e a id))
                  (dispatch lib (up 1) xadd a.event_id now (record s { db = db' })).1))
            (sym sent) (message_id, reply-IsReported e a message_id, offered, receipted))
