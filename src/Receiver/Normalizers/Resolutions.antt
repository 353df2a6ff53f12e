-- ===== src/Receiver/Normalizers/Resolutions.antt =====
-- Firing and resolved alerts of normalizers/sources.py: what each normalizer takes of one delivery.
use smokejumper.Prelude.{
  ℕ, suc, ◌+◌, ◌≡◌, refl, sym, ap, subst, ◌∙◌, Bool, true, false, not, is_empty, text_eq, lower,
  Bool-cases, inl, inr, Option, none, some, List, [], ◌∷◌, map, length, Text, lit, Result, ok, err,
  value_error, guard, ◌>>=◌, ◌>>◌, >>=-eq-ok, guard-eq-ok, arith, if◌then◌else◌,
}
use smokejumper.Contracts.Json.{
  Json, null, bool, int, float, str, arr, obj, Items, nil, cons, Fields, get,
}
use smokejumper.Contracts.Fingerprint.{event_fingerprint}
use smokejumper.Contracts.Events.{EventSource, pagerduty, AgentEvent, as_pair, source_value}
use smokejumper.Receiver.Delivery.Outbox.{model_validate-eq-ok}
use smokejumper.Receiver.Normalizers.{object, text_at, text_or, obj_at}
use smokejumper.Receiver.Normalizers.Sources.{
  Incident, build, no_fields, pagerduty_data, pagerduty_key, parse_iso, pagerduty_incident,
  service_entities, pagerduty_event, pagerduty_is_resolved, normalize_pagerduty, resolved_pagerduty,
  label_alert, label_alerts, batch_of, label_batch, add_event,
}

module _ (render : Json → Text) (fromisoformat : Text → Option ℕ) (sha256_hex : Text → Text) where
  build-fingerprint :
      (id : ℕ) (i : Incident) (occurred_at received_at : ℕ) (raw : Fields) {e : AgentEvent}
      → build render fromisoformat sha256_hex id i occurred_at received_at raw ≡ ok e
      → event_fingerprint sha256_hex (source_value i.source) i.key (map as_pair i.entities)
        ≡ ok e.fingerprint
  unfolding build
  build-fingerprint id i occurred_at received_at raw h =
      let (fingerprint, hashed, h1) = >>=-eq-ok _ _ h in
      hashed
      ∙ ap (λ (x : AgentEvent). ok x.fingerprint) (sym (model_validate-eq-ok sha256_hex _ h1))

  abbrev key_of : Fields → Text
  key_of payload =
      pagerduty_key render fromisoformat sha256_hex
        (pagerduty_data render fromisoformat sha256_hex payload)

  abbrev service_of : Fields → Text
  service_of payload =
      text_at render
        (obj_at (pagerduty_data render fromisoformat sha256_hex payload) (lit "service"))
        (lit "summary")

  pagerduty_event-fingerprint :
      (id : ℕ) (payload : Fields) (received_at : ℕ) {e : AgentEvent}
      → pagerduty_event render fromisoformat sha256_hex id payload received_at ≡ ok e
      → event_fingerprint sha256_hex
          (source_value pagerduty)
          (key_of payload)
          (map as_pair (service_entities render fromisoformat sha256_hex (service_of payload)))
        ≡ ok e.fingerprint
  unfolding pagerduty_event
  pagerduty_event-fingerprint id payload received_at h =
      let incident = pagerduty_data render fromisoformat sha256_hex payload in
      let occurred_at =
        parse_iso render fromisoformat sha256_hex (text_at render incident (lit "created_at"))
          received_at in
      let i = pagerduty_incident render fromisoformat sha256_hex payload in
      let made = build render fromisoformat sha256_hex id i occurred_at received_at payload in
      let rest = guard (not (is_empty (key_of payload))) value_error >> made in
      let (_, h1) = guard-eq-ok (not (no_fields incident)) value_error rest h in
      let (_, h2) = guard-eq-ok (not (is_empty (key_of payload))) value_error made h1 in
      build-fingerprint id i occurred_at received_at payload h2

  singleton-eq-ok :
      (r : Result AgentEvent) {es : List AgentEvent}
      → (r >>= λ e. ok (e ∷ [])) ≡ ok es
      → (e : AgentEvent) × (r ≡ ok e) × (es ≡ e ∷ [])
  singleton-eq-ok (ok e) h = (e, refl, cc)
  singleton-eq-ok (err error) h = cc

  -- A PagerDuty delivery that both normalizers take yields one event, firing or resolved, and not
  -- two.
  pagerduty_one_way :
      (id id' : ℕ) (document : Json) (received_at : ℕ) {firing resolved : List AgentEvent}
      → normalize_pagerduty render fromisoformat sha256_hex id document received_at ≡ ok firing
      → resolved_pagerduty render fromisoformat sha256_hex id' document received_at ≡ ok resolved
      → length firing + length resolved ≡ 1
  unfolding normalize_pagerduty resolved_pagerduty
  pagerduty_one_way id id' document received_at {firing} {resolved} h k =
      let (payload, read, h1) = >>=-eq-ok (object document) _ h in
      let (payload', read', k1) = >>=-eq-ok (object document) _ k in
      let same : payload' ≡ payload = cc in
      elim (Bool-cases (pagerduty_is_resolved render fromisoformat sha256_hex payload)) [
        | inl over ↦
            let none_firing : firing ≡ [] = cc (rw over at h1) in
            let (e, _, one) = singleton-eq-ok _ (rw (same, over) at k1) in
            rw (none_firing, one) refl
        | inr fires ↦
            let (e, _, one) = singleton-eq-ok _ (rw fires at h1) in
            let none_over : resolved ≡ [] = cc (rw (same, fires) at k1) in rw (none_over, one) refl
      ]

  -- A PagerDuty trigger and a resolution with the same key and the same service have the same
  -- fingerprint.
  pub pagerduty_same_incident :
      (id id' : ℕ) (trigger resolution : Fields) (received_at received_at' : ℕ) {e e' : AgentEvent}
      → key_of trigger ≡ key_of resolution
      → service_of trigger ≡ service_of resolution
      → normalize_pagerduty render fromisoformat sha256_hex id (obj trigger) received_at
        ≡ ok (e ∷ [])
      → resolved_pagerduty render fromisoformat sha256_hex id' (obj resolution) received_at'
        ≡ ok (e' ∷ [])
      → e.fingerprint ≡ e'.fingerprint
  unfolding normalize_pagerduty resolved_pagerduty object
  pagerduty_same_incident id id' trigger resolution received_at received_at' {e} {e'} key service h
        k =
      elim (Bool-cases (pagerduty_is_resolved render fromisoformat sha256_hex trigger)) [
        | inl over ↦ cc (rw over at h)
        | inr fires ↦
            elim (Bool-cases (pagerduty_is_resolved render fromisoformat sha256_hex resolution)) [
              | inr unresolved ↦ cc (rw unresolved at k)
              | inl over ↦
                  let (x, made, only) = singleton-eq-ok _ (rw fires at h) in
                  let (x', made', only') = singleton-eq-ok _ (rw over at k) in
                  let hashed = pagerduty_event-fingerprint id trigger received_at made in
                  let hashed' = pagerduty_event-fingerprint id' resolution received_at' made' in
                  let first : e ≡ x = cc in let first' : e' ≡ x' = cc in cc
            ]
      ]

  abbrev pub is_object : Json → Bool
  is_object (obj d) = true
  is_object _ = false

  abbrev pub count_objects : Items → ℕ
  count_objects nil = 0
  count_objects (cons x xs) = if is_object x then suc (count_objects xs) else count_objects xs

  abbrev found : Option AgentEvent → ℕ
  found none = 0
  found (some e) = 1

  length-add_event :
      (o : Option AgentEvent) (es : List AgentEvent)
      → length (add_event render fromisoformat sha256_hex o es) ≡ found o + length es
  length-add_event none es = omega arith
  length-add_event (some e) es = omega arith

  some-eq-ok :
      (r : Result AgentEvent) {o : Option AgentEvent}
      → (r >>= λ e. ok (some e)) ≡ ok o
      → found o ≡ 1
  some-eq-ok (ok e) h = cc
  some-eq-ok (err error) h = cc

  built_one :
      (unnamed : Bool) (r : Result AgentEvent) {o : Option AgentEvent}
      → (if unnamed then err value_error else (r >>= λ e. ok (some e))) ≡ ok o
      → found o ≡ 1
  built_one true r h = cc
  built_one false r h = some-eq-ok r h

  abbrev alert_key : Fields → Text
  alert_key item =
      text_or (text_at render item (lit "fingerprint"))
        (text_at render (obj_at item (lit "labels")) (lit "__alert_rule_uid__"))

  module _ (source : EventSource) (received_at : ℕ) where
    -- An alert that is an object is taken by one of the two passes.
    label_alert_one_way :
        (id id' : ℕ) (x : Json) {o o' : Option AgentEvent}
        → label_alert render fromisoformat sha256_hex id source received_at false x ≡ ok o
        → label_alert render fromisoformat sha256_hex id' source received_at true x ≡ ok o'
        → found o + found o' ≡ (if is_object x then 1 else 0)
    unfolding label_alert
    label_alert_one_way id id' (obj item) {o} {o'} h k =
        elim (Bool-cases (text_eq (lower (text_at render item (lit "status"))) (lit "resolved"))) [
          | inl over ↦
              let left_out : o ≡ none = cc (rw over at h) in
              let taken : found o' ≡ 1 = built_one (is_empty (alert_key item)) _ (rw over at k) in
              rw (left_out, taken) (omega arith)
          | inr fires ↦
              let left_out : o' ≡ none = cc (rw fires at k) in
              let taken : found o ≡ 1 = built_one (is_empty (alert_key item)) _ (rw fires at h) in
              rw (left_out, taken) (omega arith)
        ]
    label_alert_one_way id id' null h k = cc
    label_alert_one_way id id' (bool b) h k = cc
    label_alert_one_way id id' (int b n) h k = cc
    label_alert_one_way id id' (float t) h k = cc
    label_alert_one_way id id' (str t) h k = cc
    label_alert_one_way id id' (arr xs) h k = cc

    label_alerts_one_way :
        (uuid4 uuid4' : ℕ → ℕ) (xs : Items) {es rs : List AgentEvent}
        → label_alerts render fromisoformat sha256_hex uuid4 source received_at false xs ≡ ok es
        → label_alerts render fromisoformat sha256_hex uuid4' source received_at true xs ≡ ok rs
        → length es + length rs ≡ count_objects xs
    unfolding label_alerts
    label_alerts_one_way uuid4 uuid4' nil h k = cc
    label_alerts_one_way uuid4 uuid4' (cons x xs) h k =
        let (o, taken, h1) =
          >>=-eq-ok
            (label_alert render fromisoformat sha256_hex (uuid4 0) source received_at false x) _
            h in
        let (es, more, h2) =
          >>=-eq-ok
            (label_alerts render fromisoformat sha256_hex (λ n. uuid4 (suc n)) source received_at
              false xs)
            _ h1 in
        let (o', taken', k1) =
          >>=-eq-ok
            (label_alert render fromisoformat sha256_hex (uuid4' 0) source received_at true x) _
            k in
        let (rs, more', k2) =
          >>=-eq-ok
            (label_alerts render fromisoformat sha256_hex (λ n. uuid4' (suc n)) source received_at
              true xs)
            _ k1 in
        let head = label_alert_one_way (uuid4 0) (uuid4' 0) x taken taken' in
        let tail = label_alerts_one_way (λ n. uuid4 (suc n)) (λ n. uuid4' (suc n)) xs more more' in
        ground (arith, head, tail, length-add_event o es, length-add_event o' rs)

  -- Where the firing and the resolved pass both take a batch, they yield together one event for
  -- each of its alerts that is an object.
  label_batch_one_way :
      (source : EventSource) (received_at : ℕ) (uuid4 uuid4' : ℕ → ℕ) (payload : Fields)
      (alerts : Items) {firing resolved : List AgentEvent}
      → get (lit "alerts") payload ≡ some (arr alerts)
      → label_batch render fromisoformat sha256_hex uuid4 (obj payload) source received_at false
        ≡ ok firing
      → label_batch render fromisoformat sha256_hex uuid4' (obj payload) source received_at true
        ≡ ok resolved
      → length firing + length resolved ≡ count_objects alerts
  unfolding label_batch object
  label_batch_one_way source received_at uuid4 uuid4' payload alerts {firing} {resolved} listed h
        k =
      by_alerts alerts (subst (λ a. (listed_alerts uuid4 false a) ≡ ok firing) listed h)
        (subst (λ a. (listed_alerts uuid4' true a) ≡ ok resolved) listed k)
    where
      listed_alerts : (ℕ → ℕ) → Bool → Option Json → Result (List AgentEvent)
      listed_alerts fresh over a = batch_of render fromisoformat sha256_hex a >>= λ xs.
          label_alerts render fromisoformat sha256_hex fresh source received_at over xs

      by_alerts :
          (xs : Items) {es rs : List AgentEvent}
          → listed_alerts uuid4 false (some (arr xs)) ≡ ok es
          → listed_alerts uuid4' true (some (arr xs)) ≡ ok rs
          → length es + length rs ≡ count_objects xs
      by_alerts nil h1 k1 = cc
      by_alerts (cons x xs) h1 k1 =
          label_alerts_one_way source received_at uuid4 uuid4' (cons x xs) h1 k1
