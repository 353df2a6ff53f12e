-- ===== src/Receiver/Normalizers/Sources.antt =====
-- src/smokejumper/receiver/normalizers/sources.py: PagerDuty, Grafana, Alertmanager and generic.
use smokejumper.Prelude.{
  ℕ, suc, Bool, true, false, ◌==◌, ◌&&◌, ◌||◌, not, Option, none, some, List, [], ◌∷◌, ◌++◌, map,
  Text, lit, text_eq, lookup, is_empty, lower, upper, strip, ends_with, Result, ok, err,
  value_error, guard, ◌>>=◌, ◌>>◌, if◌then◌else◌,
}
use smokejumper.Contracts.Json.{
  Json, obj, arr, Items, nil, cons, Fields, end, field, get, py_str, truthy,
}
use smokejumper.Contracts.Fingerprint.{Pair, event_fingerprint}
use smokejumper.Contracts.Events.{
  EventSource, grafana, alertmanager, pagerduty, generic, alert, Severity, high, medium,
  severity_value, Entity, AgentEvent, source_value, as_pair, model_validate,
}
use smokejumper.Receiver.Normalizers.Severities.{
  label_severity, pd_priority, pd_severity, pd_urgency, severities,
}
use smokejumper.Receiver.Normalizers.{
  or_else, text_or, object, obj_at, identity_of, entities_of, add_pair, text_at,
}

-- What `_build` is called with, beside the times and the payload.
pub record Incident : Type 0 where
  pub source : EventSource
  pub key : Text
  pub severity : Severity
  pub title : Text
  pub body : Text
  pub entities : List Entity

abbrev or_fields : Fields → Fields → Fields
or_fields end d = d
or_fields (field k v c) d = field k v c

abbrev pub no_fields : Fields → Bool
no_fields end = true
no_fields (field k v d) = false

-- `value.replace("Z", "+00:00")`
unfoldable pub replace_z : Text → Text
replace_z [] = []
replace_z (c ∷ s) = let rest = replace_z s in if c == b'Z' then lit "+00:00" ++ rest else c ∷ rest

-- `a != b`
abbrev pub differ : Bool → Bool → Bool
differ true b = not b
differ false b = b

-- `datetime.fromisoformat`, `none` where it raises and a naive time read as UTC, is a parameter.
module _ (render : Json → Text) (fromisoformat : Text → Option ℕ) (sha256_hex : Text → Text) where
  unfoldable pub parse_iso : Text → ℕ → ℕ
  unfolding replace_z
  parse_iso value fallback =
      if is_empty value
      then fallback
      else elim (fromisoformat (replace_z value)) [ none ↦ fallback | some t ↦ t ]

  -- `_build`, with a fresh `uuid4()`.
  unfoldable pub build : ℕ → Incident → ℕ → ℕ → Fields → Result AgentEvent
  build id i occurred_at received_at raw = do
    fingerprint ←
        event_fingerprint sha256_hex (source_value i.source) i.key (map as_pair i.entities)
    model_validate sha256_hex (record {
      id = id;
      source = i.source;
      kind = alert;
      source_event_key = i.key;
      fingerprint = fingerprint;
      severity = i.severity;
      title = text_or i.title (source_value i.source ++ (lit " alert " ++ i.key));
      body = i.body;
      entities = i.entities;
      occurred_at = occurred_at;
      received_at = received_at;
      dedupe_count = 1;
      raw = raw;
    })

  unfoldable pub pagerduty_severity : Fields → Severity
  unfolding text_at obj_at upper lower
  pagerduty_severity incident =
      elim (lookup (upper (text_at render (obj_at incident (lit "priority")) (lit "summary")))
        pd_priority) [
          | some severity ↦ severity
          | none ↦ elim (lookup (lower (text_at render incident (lit "severity"))) pd_severity) [
            | some severity ↦ severity
            | none ↦
                or_else (lookup (lower (text_at render incident (lit "urgency"))) pd_urgency) high
          ]
        ]

  unfoldable pub label_pairs : Fields → List Pair
  unfolding identity_of py_str
  label_pairs end = []
  label_pairs (field key value labels) =
      add_pair (identity_of key (py_str render value)) (label_pairs labels)

  unfoldable pub entities_from_labels : Fields → List Entity
  unfolding entities_of label_pairs
  entities_from_labels labels = entities_of (label_pairs labels)

  abbrev pub service_entities : Text → List Entity
  service_entities [] = []
  service_entities (c ∷ s) = record { type = lit "service"; id = c ∷ s } ∷ []

  abbrev pub pagerduty_data : Fields → Fields
  pagerduty_data payload =
      or_fields (obj_at (obj_at payload (lit "event")) (lit "data"))
        (obj_at payload (lit "incident"))

  abbrev pub pagerduty_key : Fields → Text
  pagerduty_key incident =
      text_or (text_at render incident (lit "dedup_key"))
        (text_at render incident (lit "incident_key"))

  abbrev pub pagerduty_incident : Fields → Incident
  pagerduty_incident payload =
      let incident = pagerduty_data payload in
      record {
        source = pagerduty;
        key = pagerduty_key incident;
        severity = pagerduty_severity incident;
        title =
            text_or (text_at render incident (lit "title"))
              (text_at render incident (lit "summary"));
        body = text_at render (obj_at incident (lit "body")) (lit "details");
        entities =
            service_entities (text_at render (obj_at incident (lit "service")) (lit "summary"));
      }

  -- `_pagerduty_event` of an object.
  unfoldable pub pagerduty_event : ℕ → Fields → ℕ → Result AgentEvent
  pagerduty_event id payload received_at = do
    let incident = pagerduty_data payload
    guard (not (no_fields incident)) value_error
    guard (not (is_empty (pagerduty_key incident))) value_error
    build id (pagerduty_incident payload)
        (parse_iso (text_at render incident (lit "created_at")) received_at) received_at payload

  unfoldable pub pagerduty_is_resolved : Fields → Bool
  unfolding ends_with
  pagerduty_is_resolved payload =
      let event_type = lower (text_at render (obj_at payload (lit "event")) (lit "event_type")) in
      ends_with (lit ".resolved") event_type || text_eq event_type (lit "resolve")

  unfoldable pub normalize_pagerduty : ℕ → Json → ℕ → Result (List AgentEvent)
  normalize_pagerduty id document received_at = do
    payload ← object document
    if pagerduty_is_resolved payload
        then ok []
        else (pagerduty_event id payload received_at >>= λ e. ok (e ∷ []))

  unfoldable pub resolved_pagerduty : ℕ → Json → ℕ → Result (List AgentEvent)
  resolved_pagerduty id document received_at = do
    payload ← object document
    if not (pagerduty_is_resolved payload)
        then ok []
        else (pagerduty_event id payload received_at >>= λ e. ok (e ∷ []))

  -- One alert of a batch; `none` where it is not of the kind asked for.
  unfoldable pub label_alert : ℕ → EventSource → ℕ → Bool → Json → Result (Option AgentEvent)
  label_alert id source received_at resolved (obj item) =
      let labels = obj_at item (lit "labels") in
      let annotations = obj_at item (lit "annotations") in
      let key =
        text_or (text_at render item (lit "fingerprint"))
          (text_at render labels (lit "__alert_rule_uid__")) in
      if differ (text_eq (lower (text_at render item (lit "status"))) (lit "resolved")) resolved
      then ok none
      else if is_empty key
      then err value_error
      else build id
          (record {
            source = source;
            key = key;
            severity =
                or_else (lookup (lower (text_at render labels (lit "severity"))) label_severity)
                  medium;
            title =
                text_or (text_at render labels (lit "alertname"))
                  (text_at render annotations (lit "summary"));
            body =
                text_or (text_at render annotations (lit "description"))
                  (text_at render annotations (lit "summary"));
            entities = entities_from_labels labels;
          })
          (parse_iso (text_at render item (lit "startsAt")) received_at) received_at item
        >>= λ e. ok (some e)
  label_alert id source received_at resolved _ = ok none

  abbrev pub add_event : Option AgentEvent → List AgentEvent → List AgentEvent
  add_event none events = events
  add_event (some e) events = e ∷ events

  -- The loop of `_label_batch`. The n-th alert's event takes the n-th fresh identifier.
  unfoldable pub label_alerts : (ℕ → ℕ) → EventSource → ℕ → Bool → Items → Result (List AgentEvent)
  unfolding label_alert
  label_alerts uuid4 source received_at resolved nil = ok []
  label_alerts uuid4 source received_at resolved (cons x xs) = do
    event ← label_alert (uuid4 0) source received_at resolved x
    events ← label_alerts (λ n. uuid4 (suc n)) source received_at resolved xs
    ok (add_event event events)

  -- `alerts[]` must be there, and not empty.
  abbrev pub batch_of : Option Json → Result Items
  batch_of (some (arr (cons x xs))) = ok (cons x xs)
  batch_of _ = err value_error

  -- `_label_batch`
  unfoldable pub label_batch : (ℕ → ℕ) → Json → EventSource → ℕ → Bool → Result (List AgentEvent)
  label_batch uuid4 document source received_at resolved = do
    payload ← object document
    alerts ← batch_of (get (lit "alerts") payload)
    label_alerts uuid4 source received_at resolved alerts

  unfoldable pub normalize_grafana : (ℕ → ℕ) → Json → ℕ → Result (List AgentEvent)
  normalize_grafana uuid4 document received_at =
      label_batch uuid4 document grafana received_at false

  unfoldable pub resolved_grafana : (ℕ → ℕ) → Json → ℕ → Result (List AgentEvent)
  resolved_grafana uuid4 document received_at = label_batch uuid4 document grafana received_at true

  unfoldable pub normalize_alertmanager : (ℕ → ℕ) → Json → ℕ → Result (List AgentEvent)
  normalize_alertmanager uuid4 document received_at =
      label_batch uuid4 document alertmanager received_at false

  unfoldable pub resolved_alertmanager : (ℕ → ℕ) → Json → ℕ → Result (List AgentEvent)
  resolved_alertmanager uuid4 document received_at =
      label_batch uuid4 document alertmanager received_at true

  -- One item of a generic payload's `entities`: an object with a true type and a true id.
  abbrev generic_pair : Option Json → Option Json → Option Pair
  generic_pair (some type) (some id) =
      if truthy type && truthy id
      then some (strip (py_str render type), strip (py_str render id))
      else none
  generic_pair _ _ = none

  abbrev item_pair : Json → Option Pair
  item_pair (obj item) = generic_pair (get (lit "type") item) (get (lit "id") item)
  item_pair _ = none

  unfoldable pub generic_pairs : Items → List Pair
  unfolding truthy strip py_str get
  generic_pairs nil = []
  generic_pairs (cons x xs) = add_pair (item_pair x) (generic_pairs xs)

  unfoldable pub generic_entities : Option Json → List Entity
  unfolding entities_of generic_pairs
  generic_entities (some (arr xs)) = entities_of (generic_pairs xs)
  generic_entities _ = []

  unfoldable pub generic_severity : Text → Severity
  unfolding severity_value
  generic_severity word = elim (lookup word severities) [
    | some severity ↦ severity
    | none ↦ or_else (lookup word label_severity) medium
  ]

  unfoldable pub normalize_generic : ℕ → Json → ℕ → Result (List AgentEvent)
  normalize_generic id document received_at = do
    payload ← object document
    let key = text_at render payload (lit "event_id")
    guard (not (is_empty key)) value_error
    event ←
        build id
          (record {
            source = generic;
            key = key;
            severity = generic_severity (lower (text_at render payload (lit "severity")));
            title = text_at render payload (lit "title");
            body = text_at render payload (lit "body");
            entities = generic_entities (get (lit "entities") payload);
          })
          (parse_iso (text_at render payload (lit "occurred_at")) received_at) received_at payload
    ok (event ∷ [])
