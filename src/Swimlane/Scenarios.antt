-- ===== src/Swimlane/Scenarios.antt =====
-- architecture/_gen/scenarios.py: the four incident scenarios, which share their lanes, columns and legend.
pub mod S1
pub mod S2
pub mod S3
pub mod S4
use smokejumper.Prelude.{List, [], ◌∷◌, Text, lit}

abbrev pub lanes : List Text
lanes =
    lit "System signals\n(causal chain)"
    ∷ lit "First human\nsignal"
    ∷ lit "Smokejumper\nhypotheses"
    ∷ lit "Evidence that\ndecides"
    ∷ lit "Mitigation\nladder"
    ∷ lit "Responder"
    ∷ []

abbrev pub legend : List (Text × Text)
legend =
    (lit "signal", lit "system signal")
    ∷ (lit "port", lit "alert / chat")
    ∷ (lit "core", lit "hypothesis held")
    ∷ (lit "ok", lit "validated")
    ∷ (lit "audit", lit "evidence snapshot")
    ∷ (lit "gate", lit "action (approval)")
    ∷ (lit "human", lit "person")
    ∷ []

abbrev pub columns : List Text
columns =
    lit "hours before"
    ∷ lit "T0 · trigger"
    ∷ lit "T+min · symptom"
    ∷ lit "detect"
    ∷ lit "triage"
    ∷ lit "investigate"
    ∷ lit "verify"
    ∷ lit "mitigate"
    ∷ lit "resolve"
    ∷ []
