-- ===== src/Receiver/Routes/Keeps.antt =====
-- Properties that each statement of a delivery keeps are kept by the delivery, whatever fails on the
-- way (receiver/routes.py).
use smokejumper.Prelude.{
  ℕ, suc, ◌+◌, arith, ◌≡◌, refl, sym, subst, Bool, true, false, none, some, List, [], ◌∷◌, Text,
  value_error, other, Result, ok, err, inl, inr, if◌then◌else◌,
}
use smokejumper.Contracts.Json.{Json}
use smokejumper.Contracts.Events.{EventSource, datadog, AgentEvent}
use smokejumper.Receiver.Normalizers.{object_or_empty}
use smokejumper.Receiver.Normalizers.Datadog.{is_recovery}
use smokejumper.Receiver.Verification.{verify_shared_token}
use smokejumper.Persistence.{Database, Tx, begin}
use smokejumper.Persistence.Commit.{begin-ok, begin-err}
use smokejumper.Queue.{Attempt}
use smokejumper.Receiver.Repository.{
  Admission, dedupe_window, admit, quarantine, close_window, event_for_queue,
}
use smokejumper.Receiver.Delivery.{Store, send}
use smokejumper.Receiver.Delivery.Outbox.{dispatch_event-cases}
use smokejumper.Receiver.Routes.{
  Libraries, Router, Request, Outside, Delivered, Answer, Handler, give, proceed, ◌>>=◌,
  transaction, close_tx, reply, dispatch, admit_and_publish_one, admit_and_enqueue, close_windows,
  or_quarantine, when_verified, deliver_datadog, datadog_webhook, deliver_source, handler, verified,
  parse_datadog, parse_source, with_entities, quarantined, recovered, ignored, processed,
}

-- A property of the store that each change of the receiver keeps, for the answers of Redis given.
pub record IsKept (sha256_hex : Text → Text) (xadd : ℕ → Attempt) (I : Store → Type 0)
    : Type 0 where
  pub admitting :
      (e : AgentEvent) (s : Store) (a : Admission) (db : Database)
      → I s
      → admit dedupe_window e s.db ≡ ok (a, db)
      → I (record s { db = db })
  pub quarantining :
      (id at : ℕ) (source : EventSource) (reason : Text) (s : Store) (db : Database)
      → I s
      → quarantine id source at reason s.db ≡ ok (tt, db)
      → I (record s { db = db })
  pub closing :
      (f : Text) (at : ℕ) (s : Store) → I s → I (record s { db = (close_window f at s.db).1 })
  pub sending :
      (event_id now : ℕ) (e : AgentEvent) (s : Store) (db : Database)
      → I s
      → event_for_queue sha256_hex event_id s.db ≡ ok (some (e, none), db)
      → I (send sha256_hex xadd event_id now e s).1

module _ (I : Store → Type 0) where
  abbrev pub Keeps : {A : Type 0} → Handler A → Type 0
  Keeps m = (s : Store) → I s → I (m s).1

  Keeps-give : {A : Type 0} (a : A) → Keeps (give a)
  Keeps-give a s i = i

  Keeps-bind :
      {A B : Type 0} (m : Handler A) (f : A → Handler B)
      → Keeps m
      → ((a : A) → Keeps (f a))
      → Keeps (m >>= f)
  Keeps-bind {A} {B} m f k l s i = by_result (m s).0 (m s).1 (k s i)
    where
      by_result : (r : Result A) (t : Store) → I t → I (proceed r f t).1
      by_result (ok a) t j = l a t j
      by_result (err error) t j = j

  Keeps-transaction :
      {A : Type 0} (up : Bool) (m : Tx A)
      → ((s : Store) (a : A) (db : Database) → I s → m s.db ≡ ok (a, db) → I (record s { db = db }))
      → Keeps (transaction up m)
  unfolding transaction
  Keeps-transaction false m step s i = i
  Keeps-transaction {A} true m step s i = by_result (m s.db) refl
    where
      by_result : (r : Result (A × Database)) → m s.db ≡ r → I (record s { db = (begin m s.db).1 })
      by_result (ok (a, db')) e =
          subst (λ (x : Result A × Database). I (record s { db = x.1 })) (sym (begin-ok m s.db e))
            (step s a db' i e)
      by_result (err error) e =
          subst (λ (x : Result A × Database). I (record s { db = x.1 })) (sym (begin-err m s.db e))
            i

  module _ {Address Network : Type 0} (lib : Libraries Address Network) (out : Outside)
      (kept : IsKept lib.sha256_hex out.xadd I) where
    dispatch-Keeps : (up : Bool) (event_id now : ℕ) → Keeps (dispatch lib up out.xadd event_id now)
    unfolding dispatch
    dispatch-Keeps false event_id now s i = i
    dispatch-Keeps true event_id now s i =
        elim (dispatch_event-cases lib.sha256_hex out.xadd event_id now s) [
          | inl same ↦ rw same i
          | inr (e, db', found, sent) ↦ rw sent (kept.sending event_id now e s db' i found)
        ]

    admit_and_publish_one-Keeps :
        (up : ℕ → Bool) (now : ℕ) (e : AgentEvent)
        → Keeps (admit_and_publish_one lib up out.xadd now e)
    unfolding admit_and_publish_one
    admit_and_publish_one-Keeps up now e =
        Keeps-bind (transaction (up 0) (admit dedupe_window e)) _
          (Keeps-transaction (up 0) (admit dedupe_window e) (kept.admitting e))
          λ admission.
            Keeps-bind (dispatch lib (up 1) out.xadd admission.event_id now) _
              (dispatch-Keeps (up 1) admission.event_id now)
              λ message_id. Keeps-give (reply e admission message_id)

    admit_and_enqueue-Keeps :
        (up : ℕ → Bool) (now : ℕ) (es : List AgentEvent)
        → Keeps (admit_and_enqueue lib up out.xadd now es)
    unfolding admit_and_enqueue
    admit_and_enqueue-Keeps up now [] = Keeps-give {A = List Delivered} []
    admit_and_enqueue-Keeps up now (e ∷ es) =
        Keeps-bind (admit_and_publish_one lib up out.xadd now e) _
          (admit_and_publish_one-Keeps up now e)
          λ result.
            Keeps-bind (admit_and_enqueue lib (λ n. up (suc (suc n))) out.xadd now es) _
              (admit_and_enqueue-Keeps (λ n. up (suc (suc n))) now es)
              λ results. Keeps-give (result ∷ results)

    close_tx-Keeps : (up : Bool) (f : Text) (now : ℕ) → Keeps (transaction up (close_tx f now))
    close_tx-Keeps up f now = Keeps-transaction up (close_tx f now) λ s a db i h.
        let same : (close_window f now s.db).1 ≡ db = ground arith in
        subst (λ (d : Database). I (record s { db = d })) same (kept.closing f now s i)

    close_windows-Keeps :
        (up : ℕ → Bool) (now : ℕ) (es : List AgentEvent) → Keeps (close_windows lib up now es)
    unfolding close_windows
    close_windows-Keeps up now [] = Keeps-give {A = ℕ × (ℕ → Bool)} (0, up)
    close_windows-Keeps up now (e ∷ es) =
        Keeps-bind (transaction (up 0) (close_tx e.fingerprint now)) _
          (close_tx-Keeps (up 0) e.fingerprint now)
          λ closed.
            Keeps-bind (close_windows lib (λ n. up (suc n)) now es) _
              (close_windows-Keeps (λ n. up (suc n)) now es)
              λ (more, up'). Keeps-give {A = ℕ × (ℕ → Bool)} (closed + more, up')

    or_quarantine-Keeps :
        {A : Type 0} (source : EventSource) (reason : Text) (r : Result A) (f : A → Handler Answer)
        → ((a : A) → Keeps (f a))
        → Keeps (or_quarantine lib out source reason r f)
    or_quarantine-Keeps source reason (ok a) f k = k a
    or_quarantine-Keeps source reason (err other) f k = λ s i. i
    or_quarantine-Keeps source reason (err value_error) f k =
        Keeps-bind
          (transaction (out.db_up 0) (quarantine out.fresh_quarantined source out.now reason)) _
          (Keeps-transaction (out.db_up 0) (quarantine out.fresh_quarantined source out.now reason)
            (λ s _ db i h. kept.quarantining out.fresh_quarantined out.now source reason s db i h))
          λ _. Keeps-give (quarantined reason)

    when_verified-Keeps :
        (r : Result Bool) (m : Handler Answer) → Keeps m → Keeps (when_verified lib r m)
    when_verified-Keeps (ok true) m k = k
    when_verified-Keeps (ok false) m k = λ s i. i
    when_verified-Keeps (err error) m k = λ s i. i

    deliver_datadog-Keeps : (parsed : Json × AgentEvent) → Keeps (deliver_datadog lib out parsed)
    unfolding deliver_datadog
    deliver_datadog-Keeps (payload, e) =
        elim (is_recovery lib.render lib.int_of lib.fromtimestamp (object_or_empty (some payload)))
          as (λ t. Keeps (
            if t
            then (transaction (out.db_up 0) (close_tx e.fingerprint out.now) >>= λ closed.
                give (recovered e.fingerprint closed))
            else (admit_and_publish_one lib out.db_up out.xadd out.now e >>= λ result.
                give (with_entities lib e result)))) [
                  | true ↦
                      Keeps-bind (transaction (out.db_up 0) (close_tx e.fingerprint out.now)) _
                        (close_tx-Keeps (out.db_up 0) e.fingerprint out.now)
                        λ closed. Keeps-give (recovered e.fingerprint closed)
                  | false ↦
                      Keeps-bind (admit_and_publish_one lib out.db_up out.xadd out.now e) _
                        (admit_and_publish_one-Keeps out.db_up out.now e)
                        λ result. Keeps-give (with_entities lib e result)
                ]

    deliver_source-Keeps :
        (parsed : List AgentEvent × List AgentEvent) → Keeps (deliver_source lib out parsed)
    unfolding deliver_source
    deliver_source-Keeps ([], resolved) =
        Keeps-bind (close_windows lib out.db_up out.now resolved) _
          (close_windows-Keeps out.db_up out.now resolved)
          λ (closed, up). Keeps-give (ignored closed)
    deliver_source-Keeps (e ∷ es, resolved) =
        Keeps-bind (close_windows lib out.db_up out.now resolved) _
          (close_windows-Keeps out.db_up out.now resolved)
          λ (closed, up).
            Keeps-bind (admit_and_enqueue lib up out.xadd out.now (e ∷ es)) _
              (admit_and_enqueue-Keeps up out.now (e ∷ es))
              λ results. Keeps-give (processed closed results)

    pub datadog_webhook-Keeps :
        (router : Router Network) (reason : Text) (request : Request)
        → Keeps (datadog_webhook lib router out reason request)
    unfolding datadog_webhook
    datadog_webhook-Keeps router reason request =
        when_verified-Keeps (verify_shared_token request.headers router.datadog_secret) _ (
          or_quarantine-Keeps datadog reason (parse_datadog lib out request.body)
            (deliver_datadog lib out) (deliver_datadog-Keeps))

    pub handler-Keeps :
        (router : Router Network) (source : EventSource) (reason : Text) (request : Request)
        → Keeps (handler lib router out source reason request)
    unfolding handler
    handler-Keeps router source reason request =
        when_verified-Keeps (verified lib router source request) _ (
          or_quarantine-Keeps source reason (parse_source lib out source request.body)
            (deliver_source lib out) (deliver_source-Keeps))
