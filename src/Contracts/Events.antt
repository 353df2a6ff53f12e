-- ===== src/Contracts/Events.antt =====
-- src/smokejumper/contracts/events.py and base.py: B2, the one input type of the intelligence side.
use smokejumper.Prelude.{
  ℕ, ◌==◌, Bool, ◌&&◌, ◌||◌, not, List, map, Text, lit, leb, length, all, any, text_eq, is_empty,
  Result, ok, value_error, guard, ◌>>=◌, ◌>>◌,
}
use smokejumper.Contracts.Json.{Fields}
use smokejumper.Contracts.Fingerprint.{Pair, is_surrogate, event_fingerprint}

pub data EventSource : Type 0 where
  grafana alertmanager datadog pagerduty generic slack scheduled : EventSource

pub data EventKind : Type 0 where
  alert chat scheduled storm : EventKind

pub data Severity : Type 0 where
  critical high medium low info : Severity

-- `EventSource.….value`
unfoldable pub source_value : EventSource → Text
source_value grafana = lit "grafana"
source_value alertmanager = lit "alertmanager"
source_value datadog = lit "datadog"
source_value pagerduty = lit "pagerduty"
source_value generic = lit "generic"
source_value slack = lit "slack"
source_value EventSource.scheduled = lit "scheduled"

unfoldable pub severity_value : Severity → Text
severity_value critical = lit "critical"
severity_value high = lit "high"
severity_value medium = lit "medium"
severity_value low = lit "low"
severity_value info = lit "info"

pub record Entity : Type 0 where
  pub type : Text
  pub id : Text

-- Times are microseconds of UTC; a UUID is its number.
pub record AgentEvent : Type 0 where
  pub id : ℕ
  pub source : EventSource
  pub kind : EventKind
  pub source_event_key : Text
  pub fingerprint : Text
  pub severity : Severity
  pub title : Text
  pub body : Text
  pub entities : List Entity
  pub occurred_at : ℕ
  pub received_at : ℕ
  pub dedupe_count : ℕ
  pub raw : Fields

abbrev pub as_pair : Entity → Pair
as_pair e = (e.type, e.id)

-- `^[0-9a-f]{64}$`
unfoldable pub is_sha256_hex : Text → Bool
is_sha256_hex s =
    length s == 64 && all (λ c. leb b'0' c && leb c b'9' || leb b'a' c && leb c b'f') s

-- `Field(min_length=1)` of both fields.
unfoldable pub is_entity : Entity → Bool
is_entity e = not (is_empty e.type) && not (is_empty e.id)

module _ (sha256_hex : Text → Text) where
  -- Construction of an `AgentEvent`: the fields' constraints, then the model validator. A `str` with
  -- a lone surrogate is refused; for the key and the entities the fingerprint does it.
  unfoldable pub model_validate : AgentEvent → Result AgentEvent
  unfolding is_entity
  model_validate e = do
    guard (not (is_empty e.source_event_key)) value_error
    guard (is_sha256_hex e.fingerprint) value_error
    guard (not (any is_surrogate e.title) && not (any is_surrogate e.body)) value_error
    guard (all is_entity e.entities) value_error
    guard (leb 1 e.dedupe_count) value_error
    expected ←
        event_fingerprint sha256_hex (source_value e.source) e.source_event_key
          (map as_pair e.entities)
    guard (text_eq e.fingerprint expected) value_error
    ok e
