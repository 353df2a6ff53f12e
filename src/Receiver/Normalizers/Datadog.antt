-- ===== src/Receiver/Normalizers/Datadog.antt =====
-- src/smokejumper/receiver/normalizers/datadog.py: a Datadog webhook as an event.
use smokejumper.Prelude.{
  lookup, ℕ, Bool, true, false, ◌==◌, not, Option, none, some, List, [], ◌∷◌, ◌++◌, map, select,
  Text, lit, one_of, is_empty, lower, upper, strip, split, partition, Result, ok, value_error,
  guard, ◌>>=◌, ◌>>◌, if◌then◌else◌,
}
use smokejumper.Contracts.Json.{Json, str, arr, Items, nil, cons, Fields, get, py_str}
use smokejumper.Contracts.Fingerprint.{Pair, event_fingerprint}
use smokejumper.Contracts.Events.{
  datadog, alert, Severity, critical, high, medium, low, info, Entity, AgentEvent, source_value,
  as_pair, model_validate,
}
use smokejumper.Receiver.Normalizers.{
  or_else, text_or, object, identity_of, entities_of, add_pair, text_at,
}

abbrev pub priority_severity : List (Text × Severity)
priority_severity =
    (lit "P1", critical)
    ∷ (lit "P2", high)
    ∷ (lit "P3", medium)
    ∷ (lit "P4", low)
    ∷ (lit "P5", info)
    ∷ []

abbrev pub alert_type_severity : List (Text × Severity)
alert_type_severity =
    (lit "error", high) ∷ (lit "warning", medium) ∷ (lit "success", info) ∷ (lit "info", info) ∷ []

abbrev pub recovery_transitions : List Text
recovery_transitions = lit "Recovered" ∷ lit "recovered" ∷ []

abbrev cleaned : List Text → List Text
cleaned tags = select (λ t. not (is_empty t)) (map strip tags)

-- One tag: `none` where it has no separator, or is none of the identifying ones.
unfoldable pub tag_pair : Text → Option Pair
unfolding partition identity_of
tag_pair tag = elim (partition b':' tag) [ none ↦ none | some (key, value) ↦ identity_of key value ]

unfoldable pub tag_pairs : List Text → List Pair
unfolding tag_pair
tag_pairs [] = []
tag_pairs (tag ∷ tags) = add_pair (tag_pair tag) (tag_pairs tags)

unfoldable pub tag_entities : List Text → List Entity
unfolding tag_pairs entities_of
tag_entities tags = entities_of (tag_pairs tags)

-- `str` of a document where Python's `repr` decides, `int` of a text (its sign and magnitude) and
-- `datetime.fromtimestamp(milliseconds / 1000, tz=UTC)` are parameters.
module _ (render : Json → Text) (int_of : Text → Option (Bool × ℕ))
    (fromtimestamp : ℕ → Result ℕ) where
  unfoldable pub item_texts : Items → List Text
  unfolding py_str
  item_texts nil = []
  item_texts (cons x xs) = py_str render x ∷ item_texts xs

  unfoldable pub parse_tags : Option Json → List Text
  unfolding item_texts split strip
  parse_tags (some (str s)) = cleaned (split b',' s)
  parse_tags (some (arr xs)) = cleaned (item_texts xs)
  parse_tags _ = []

  unfoldable pub severity_of : Fields → Severity
  unfolding text_at upper lower
  severity_of payload =
      elim (lookup (upper (text_at render payload (lit "priority"))) priority_severity) [
        | some severity ↦ severity
        | none ↦
            or_else (lookup (lower (text_at render payload (lit "alert_type"))) alert_type_severity)
              info
      ]

  -- `str(payload.get("date"))`
  abbrev date_text : Option Json → Text
  date_text none = lit "None"
  date_text (some v) = py_str render v

  unfoldable pub occurred_at_of : Fields → ℕ → Result ℕ
  unfolding get py_str
  occurred_at_of payload received_at = elim (int_of (date_text (get (lit "date") payload))) [
    | none ↦ ok received_at
    | some (true, n) ↦ ok received_at
    | some (false, n) ↦ if n == 0 then ok received_at else fromtimestamp n
  ]

  unfoldable pub is_recovery : Fields → Bool
  unfolding text_at
  is_recovery payload =
      one_of (text_at render payload (lit "alert_transition")) recovery_transitions

  -- The `AgentEvent(…)` of a payload, before its validation.
  abbrev pub built : ℕ → Fields → ℕ → Text → ℕ → AgentEvent
  built id payload received_at fingerprint occurred_at =
      let alert_id = text_at render payload (lit "alert_id") in
      record {
        id = id;
        source = datadog;
        kind = alert;
        source_event_key = alert_id;
        fingerprint = fingerprint;
        severity = severity_of payload;
        title = text_or (text_at render payload (lit "title")) (lit "Datadog monitor " ++ alert_id);
        body = text_at render payload (lit "body");
        entities = tag_entities (parse_tags (get (lit "tags") payload));
        occurred_at = occurred_at;
        received_at = received_at;
        dedupe_count = 1;
        raw = payload;
      }

  module _ (sha256_hex : Text → Text) where
    -- `id` is the fresh `uuid4()`.
    unfoldable pub normalize : ℕ → Json → ℕ → Result AgentEvent
    normalize id document received_at = do
      payload ← object document
      let alert_id = text_at render payload (lit "alert_id")
      guard (not (is_empty alert_id)) value_error
      let entities = tag_entities (parse_tags (get (lit "tags") payload))
      fingerprint ←
          event_fingerprint sha256_hex (source_value datadog) alert_id (map as_pair entities)
      occurred_at ← occurred_at_of payload received_at
      model_validate sha256_hex (built id payload received_at fingerprint occurred_at)
