-- ===== src/Receiver/Normalizers/Severities.antt =====
-- src/smokejumper/receiver/normalizers/sources.py: what the sources' words for severities mean.
use smokejumper.Prelude.{List, [], ◌∷◌, Text, lit}
use smokejumper.Contracts.Events.{Severity, critical, high, medium, low, info, severity_value}

abbrev pub label_severity : List (Text × Severity)
label_severity =
    (lit "critical", critical)
    ∷ (lit "error", high)
    ∷ (lit "high", high)
    ∷ (lit "page", high)
    ∷ (lit "warning", medium)
    ∷ (lit "warn", medium)
    ∷ (lit "minor", low)
    ∷ (lit "low", low)
    ∷ (lit "info", info)
    ∷ (lit "none", info)
    ∷ []

abbrev pub pd_priority : List (Text × Severity)
pd_priority =
    (lit "P1", critical)
    ∷ (lit "P2", high)
    ∷ (lit "P3", medium)
    ∷ (lit "P4", low)
    ∷ (lit "P5", info)
    ∷ []

abbrev pub pd_severity : List (Text × Severity)
pd_severity =
    (lit "critical", critical)
    ∷ (lit "error", high)
    ∷ (lit "warning", medium)
    ∷ (lit "info", info)
    ∷ []

abbrev pub pd_urgency : List (Text × Severity)
pd_urgency = (lit "high", high) ∷ (lit "low", low) ∷ []

-- The members of `Severity` by their values: `Severity(text)` where there is one.
abbrev pub severities : List (Text × Severity)
severities =
    (severity_value critical, critical)
    ∷ (severity_value high, high)
    ∷ (severity_value medium, medium)
    ∷ (severity_value low, low)
    ∷ (severity_value info, info)
    ∷ []
