-- ===== src/Receiver/Normalizers.antt =====
-- What the normalizers of src/smokejumper/receiver/normalizers share: reads of a payload, and the
-- entities that identify a subject.
pub mod Datadog
pub mod Severities
pub mod Sources
pub mod Subjects
pub mod Resolutions
use smokejumper.Prelude.{
  ℕ, Bool, true, false, ◌&&◌, not, Option, none, some, List, [], ◌∷◌, map, Text, lit, text_eq,
  one_of, is_empty, lower, strip, Result, ok, err, value_error, if◌then◌else◌,
}
use smokejumper.Prelude.Distinct.{distinct}
use smokejumper.Contracts.Json.{Json, null, obj, Fields, end, field, get, py_str}
use smokejumper.Contracts.Fingerprint.{Pair, pair_lt}
use smokejumper.Contracts.Events.{Entity, Severity}

-- `IDENTITY_TAG_KEYS`
abbrev pub identity_tag_keys : List Text
identity_tag_keys =
    lit "service"
    ∷ lit "host"
    ∷ lit "env"
    ∷ lit "cluster"
    ∷ lit "cluster_name"
    ∷ lit "database"
    ∷ lit "table"
    ∷ lit "region"
    ∷ lit "availability-zone"
    ∷ lit "kube_namespace"
    ∷ lit "kube_deployment"
    ∷ lit "queue"
    ∷ lit "topic"
    ∷ []

abbrev pub or_else : Option Severity → Severity → Severity
or_else none default = default
or_else (some severity) default = severity

-- `text or default`
abbrev pub text_or : Text → Text → Text
text_or [] default = default
text_or (c ∷ s) default = c ∷ s

-- `isinstance(payload, dict)`
unfoldable pub object : Json → Result Fields
object (obj d) = ok d
object _ = err value_error

-- `_obj`
abbrev pub object_or_empty : Option Json → Fields
object_or_empty (some (obj d)) = d
object_or_empty _ = end

unfoldable pub obj_at : Fields → Text → Fields
unfolding get
obj_at source key = object_or_empty (get key source)

-- A pair that identifies a subject: an allowed name and a value, both cleaned.
unfoldable pub identity_of : Text → Text → Option Pair
unfolding lower strip
identity_of key value =
    let name = lower (strip key) in
    let text = strip value in
    if one_of name identity_tag_keys && not (is_empty text) then some (name, text) else none

abbrev pub entity_of : Pair → Entity
entity_of (type, id) = record { type = type; id = id }

-- `[Entity(…) for … in sorted(seen)]`, of the pairs that went into the set.
unfoldable pub entities_of : List Pair → List Entity
unfolding distinct pair_lt
entities_of seen = map entity_of (distinct pair_lt seen)

abbrev pub add_pair : Option Pair → List Pair → List Pair
add_pair none seen = seen
add_pair (some pair) seen = pair ∷ seen

module _ (render : Json → Text) where
  -- `_text`
  unfoldable pub text_at : Fields → Text → Text
  unfolding get strip py_str
  text_at source key = elim (get key source) [
    | none ↦ []
    | some null ↦ []
    | some v ↦ strip (py_str render v)
  ]
