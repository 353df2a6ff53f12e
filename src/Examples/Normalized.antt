-- ===== src/Examples/Normalized.antt =====
-- The theorems on normalizers and fingerprints at small payloads.
use mathlib.Core.List.{Perm}
use mathlib.Core.List.Perm
use smokejumper.Prelude.{
  ℕ, ◌≡◌, refl, true, false, List, [], ◌∷◌, Text, lit, text_eq, split, strip, starts_with, ok,
}
use smokejumper.Contracts.Json.{
  Json, str, arr, obj, Items, nil, cons, Fields, end, field, get, py_str,
}
use smokejumper.Contracts.Fingerprint.{
  Pair, canonical, is_surrogate, json_string, json_pairs, json_pair, json_more, escape_all, escape,
  pair_lt, event_fingerprint,
}
use smokejumper.Prelude.{text_lt, lower, upper, lstrip, is_space, partition, ends_with}
use smokejumper.Prelude.Sorted.{sorted, place}
use smokejumper.Prelude.Distinct.{distinct, place_once}
use smokejumper.Receiver.Normalizers.{object, text_at, obj_at, entities_of, identity_of}
use smokejumper.Contracts.Fingerprint.Identity.{event_fingerprint_identity, event_fingerprint_perm}
use smokejumper.Contracts.Events.{
  model_validate, is_sha256_hex, is_entity, source_value, grafana, pagerduty, alert, high, medium,
  AgentEvent,
}
use smokejumper.Receiver.Normalizers.Datadog.{
  tag_entities, tag_pairs, tag_pair, severity_of, occurred_at_of, parse_tags, normalize, built,
}
use smokejumper.Receiver.Normalizers.Subjects.{fingerprint-normalize}
use smokejumper.Receiver.Normalizers.Sources.{
  pagerduty_is_resolved, pagerduty_event, pagerduty_severity, parse_iso, build, label_alerts,
  label_alert, entities_from_labels, label_pairs, normalize_pagerduty, resolved_pagerduty,
  label_batch,
}
use smokejumper.Receiver.Normalizers.Resolutions.{pagerduty_same_incident}
use smokejumper.Examples.{
  render, int_of, fromtimestamp, fromisoformat, datadog_payload, zeros, constant_digest,
}

abbrev two_tags : Fields
two_tags = datadog_payload (lit "host:a, env:b")

abbrev swapped_tags : Fields
swapped_tags = datadog_payload (lit "env:b, host:a")

abbrev two_tags_event : ℕ → Fields → AgentEvent
two_tags_event id payload = built render int_of fromtimestamp id payload 2000 zeros 2000

first_normalizes :
    normalize render int_of fromtimestamp constant_digest 5 (obj two_tags) 2000
    ≡ ok (two_tags_event 5 two_tags)
unfolding normalize object text_at get parse_tags tag_entities tag_pairs tag_pair entities_of
    distinct place_once identity_of severity_of occurred_at_of lower upper strip lstrip is_space
    split partition py_str model_validate is_sha256_hex is_entity event_fingerprint canonical
    is_surrogate json_string json_pairs json_pair json_more escape_all escape sorted place pair_lt
    text_lt text_eq source_value
first_normalizes = refl

second_normalizes :
    normalize render int_of fromtimestamp constant_digest 6 (obj swapped_tags) 2000
    ≡ ok (two_tags_event 6 swapped_tags)
unfolding normalize object text_at get parse_tags tag_entities tag_pairs tag_pair entities_of
    distinct place_once identity_of severity_of occurred_at_of lower upper strip lstrip is_space
    split partition py_str model_validate is_sha256_hex is_entity event_fingerprint canonical
    is_surrogate json_string json_pairs json_pair json_more escape_all escape sorted place pair_lt
    text_lt text_eq source_value
second_normalizes = refl

same_tags :
    Perm
      (parse_tags render int_of fromtimestamp (get (lit "tags") two_tags))
      (parse_tags render int_of fromtimestamp (get (lit "tags") swapped_tags))
unfolding parse_tags get text_eq
same_tags = Perm.swap (lit "env:b") (lit "host:a") []

fingerprint-normalize_example :
    (two_tags_event 5 two_tags).fingerprint ≡ (two_tags_event 6 swapped_tags).fingerprint
unfolding text_at text_eq
fingerprint-normalize_example =
    fingerprint-normalize render int_of fromtimestamp constant_digest 5 6 two_tags swapped_tags 2000
      2000 refl same_tags first_normalizes second_normalizes

abbrev pagerduty_payload : Text → Fields
pagerduty_payload kind =
    field (lit "event")
      (obj (
        field (lit "event_type") (str kind)
          (field (lit "data") (obj (field (lit "dedup_key") (str (lit "key")) end)) end)))
      end

abbrev trigger : Fields
trigger = pagerduty_payload (lit "incident.triggered")

abbrev resolution : Fields
resolution = pagerduty_payload (lit "incident.resolved")

abbrev pagerduty_made : ℕ → Fields → AgentEvent
pagerduty_made id payload = record {
  id = id;
  source = pagerduty;
  kind = alert;
  source_event_key = lit "key";
  fingerprint = zeros;
  severity = high;
  title = lit "pagerduty alert key";
  body = [];
  entities = [];
  occurred_at = 2000;
  received_at = 2000;
  dedupe_count = 1;
  raw = payload;
}

trigger_normalizes :
    normalize_pagerduty render fromisoformat constant_digest 5 (obj trigger) 2000
    ≡ ok (pagerduty_made 5 trigger ∷ [])
unfolding normalize_pagerduty object text_at obj_at get py_str strip lower upper lstrip is_space
    pagerduty_is_resolved ends_with starts_with pagerduty_event pagerduty_severity parse_iso build
    model_validate is_sha256_hex is_entity event_fingerprint canonical is_surrogate json_string
    json_pairs json_pair json_more escape_all escape sorted place pair_lt text_lt text_eq
    source_value
trigger_normalizes = refl

trigger_resolves_none :
    resolved_pagerduty render fromisoformat constant_digest 6 (obj trigger) 2000 ≡ ok []
unfolding resolved_pagerduty object text_at obj_at get py_str strip lower upper lstrip is_space
    pagerduty_is_resolved ends_with starts_with pagerduty_event pagerduty_severity parse_iso build
    model_validate is_sha256_hex is_entity event_fingerprint canonical is_surrogate json_string
    json_pairs json_pair json_more escape_all escape sorted place pair_lt text_lt text_eq
    source_value
trigger_resolves_none = refl

resolution_resolves :
    resolved_pagerduty render fromisoformat constant_digest 6 (obj resolution) 3000
    ≡ ok (record (pagerduty_made 6 resolution) { occurred_at = 3000; received_at = 3000 } ∷ [])
unfolding resolved_pagerduty object text_at obj_at get py_str strip lower upper lstrip is_space
    pagerduty_is_resolved ends_with starts_with pagerduty_event pagerduty_severity parse_iso build
    model_validate is_sha256_hex is_entity event_fingerprint canonical is_surrogate json_string
    json_pairs json_pair json_more escape_all escape sorted place pair_lt text_lt text_eq
    source_value
resolution_resolves = refl

pagerduty_same_incident_example :
    (pagerduty_made 5 trigger).fingerprint ≡ (pagerduty_made 6 resolution).fingerprint
unfolding obj_at text_eq
pagerduty_same_incident_example =
    pagerduty_same_incident render fromisoformat constant_digest 5 6 trigger resolution 2000 3000
      refl refl trigger_normalizes resolution_resolves

abbrev alert_of : Text → Json
alert_of status =
    obj (field (lit "status") (str status) (field (lit "fingerprint") (str (lit "key")) end))

abbrev batch : Items
batch = cons (alert_of (lit "firing")) (cons (alert_of (lit "resolved")) (cons (str (lit "x")) nil))

abbrev batch_payload : Fields
batch_payload = field (lit "alerts") (arr batch) end

abbrev batch_made : ℕ → Text → AgentEvent
batch_made id status = record (pagerduty_made id end) {
  source = grafana;
  severity = medium;
  title = lit "grafana alert key";
  raw = field (lit "status") (str status) (field (lit "fingerprint") (str (lit "key")) end);
}

batch_fires :
    label_batch render fromisoformat constant_digest (λ n. n) (obj batch_payload) grafana 2000 false
    ≡ ok (batch_made 0 (lit "firing") ∷ [])
unfolding label_batch object text_at obj_at get py_str strip lower lstrip is_space label_alerts
    label_alert entities_from_labels label_pairs entities_of distinct parse_iso build model_validate
    is_sha256_hex is_entity event_fingerprint canonical is_surrogate json_string json_pairs
    json_pair json_more escape_all escape sorted place pair_lt text_lt text_eq source_value
batch_fires = refl

batch_resolves :
    label_batch render fromisoformat constant_digest (λ n. n) (obj batch_payload) grafana 2000 true
    ≡ ok (batch_made 1 (lit "resolved") ∷ [])
unfolding label_batch object text_at obj_at get py_str strip lower lstrip is_space label_alerts
    label_alert entities_from_labels label_pairs entities_of distinct parse_iso build model_validate
    is_sha256_hex is_entity event_fingerprint canonical is_surrogate json_string json_pairs
    json_pair json_more escape_all escape sorted place pair_lt text_lt text_eq source_value
batch_resolves = refl

abbrev two_pairs : List Pair
two_pairs = (lit "host", lit "a") ∷ (lit "env", lit "b") ∷ []

abbrev swapped_pairs : List Pair
swapped_pairs = (lit "env", lit "b") ∷ (lit "host", lit "a") ∷ []

pairs_swap : Perm two_pairs swapped_pairs
pairs_swap = Perm.swap (lit "env", lit "b") (lit "host", lit "a") []

event_fingerprint_perm_example :
    event_fingerprint constant_digest (lit "s") (lit "k") two_pairs
    ≡ event_fingerprint constant_digest (lit "s") (lit "k") swapped_pairs
event_fingerprint_perm_example =
    event_fingerprint_perm constant_digest (lit "s") (lit "k") two_pairs swapped_pairs pairs_swap

-- A text is its own digest here.
abbrev identity_digest : Text → Text
identity_digest text = text

abbrev two_pairs_text : Text
two_pairs_text = canonical (lit "s") (lit "k") two_pairs

two_pairs_hash : event_fingerprint identity_digest (lit "s") (lit "k") two_pairs ≡ ok two_pairs_text
unfolding event_fingerprint canonical is_surrogate json_string json_pairs json_pair json_more
    escape_all escape sorted place pair_lt text_lt text_eq
two_pairs_hash = refl

swapped_pairs_hash :
    event_fingerprint identity_digest (lit "s") (lit "k") swapped_pairs ≡ ok two_pairs_text
unfolding event_fingerprint canonical is_surrogate json_string json_pairs json_pair json_more
    escape_all escape sorted place pair_lt text_lt text_eq
swapped_pairs_hash = refl

event_fingerprint_identity_example :
    (lit "s" ≡ lit "s") × (lit "k" ≡ lit "k") × Perm two_pairs swapped_pairs
event_fingerprint_identity_example =
    event_fingerprint_identity identity_digest (lit "s") (lit "s") (lit "k") (lit "k") two_pairs
      swapped_pairs two_pairs_text (λ same. same) two_pairs_hash swapped_pairs_hash
