-- ===== src/Intelligence.antt =====
-- src/smokejumper/intelligence/triage.py: from an event to a conclusion, with no model call.
--
-- Confidences are tenths. `isoformat` of a time and the milliseconds that passed are parameters.
pub mod Claims
use smokejumper.Prelude.{
  ℕ, Bool, true, false, Option, none, some, List, [], ◌∷◌, ◌++◌, map, Text, lit, is_empty, strip,
  join, if◌then◌else◌,
}
use Prim.Native.Nat.{max}
use smokejumper.Contracts.Events.{
  Severity, critical, high, Entity, AgentEvent, source_value, severity_value,
}
use smokejumper.Contracts.Conclusions.{
  Budget, Finding, Conclusion, ConclusionStatus, inconclusive, needs_human, status_value,
}

-- `severity in ESCALATING`
unfoldable pub escalating : Severity → Bool
escalating critical = true
escalating high = true
escalating _ = false

abbrev pub no_spend : Budget
no_spend = record { tool_calls = 0; tokens = 0 }

unfoldable pub entity_summary : AgentEvent → Text
unfolding join
entity_summary e = elim e.entities [
  | [] ↦ lit "no entities were tagged on this alert"
  | x ∷ xs ↦ join (lit ", ") (map (λ (y : Entity). y.type ++ (b'=' ∷ y.id)) (x ∷ xs))
]

-- `str(uuid)` is a parameter too.
module _ (uuid_text isoformat : ℕ → Text) where
  unfoldable pub references : AgentEvent → List Text
  references e = (lit "event:" ++ uuid_text e.id) ∷ (lit "fingerprint:" ++ e.fingerprint) ∷ []

  firing : AgentEvent → Finding
  unfolding references severity_value source_value
  firing e = record {
    agent = lit "receiver";
    hypothesis =
        source_value e.source
        ++ (lit " monitor "
            ++ (e.source_event_key
                ++ (lit " is firing at " ++ (severity_value e.severity ++ lit " severity"))));
    evidence = references e;
    confidence = 10;
    budget_spent = no_spend;
  }

  subject : AgentEvent → Finding
  unfolding entity_summary
  subject e = record {
    agent = lit "receiver";
    hypothesis = lit "affected subject: " ++ entity_summary e;
    evidence = map (λ (y : Entity). lit "entity:" ++ (y.type ++ (b':' ∷ y.id))) e.entities;
    confidence = 10;
    budget_spent = no_spend;
  }

  unknown_cause : Finding
  unknown_cause = record {
    agent = lit "triage";
    hypothesis =
        lit "no root cause determined: this build has no metric history, deploy "
        ++ lit "timeline, or log correlation to reason over";
    evidence = lit "capability:read-tier-tools-absent" ∷ [];
    confidence = 10;
    budget_spent = no_spend;
  }

  unfoldable pub findings_of : AgentEvent → List Finding
  unfolding firing subject unknown_cause
  findings_of e = elim e.entities [
    | [] ↦ firing e ∷ unknown_cause ∷ []
    | x ∷ xs ↦ firing e ∷ subject e ∷ unknown_cause ∷ []
  ]

  abbrev newline : Text
  newline = 10 ∷ []

  unfoldable pub summary : AgentEvent → ConclusionStatus → Text
  unfolding join entity_summary status_value strip
  summary e status =
      let lines =
        (lit "**" ++ (e.title ++ lit "**"))
        ∷ []
        ∷ (lit "- source: `"
            ++ (source_value e.source ++ (lit "` monitor `" ++ (e.source_event_key ++ lit "`"))))
        ∷ (lit "- severity: `" ++ (severity_value e.severity ++ lit "`"))
        ∷ (lit "- subject: " ++ entity_summary e)
        ∷ (lit "- first seen: " ++ isoformat e.occurred_at)
        ∷ []
        ∷ (lit "Triage reached `" ++ (status_value status ++ lit "`."))
        ∷ [] in
      let detail = [] ∷ lit "Alert detail:" ∷ [] ∷ lit "```" ∷ strip e.body ∷ lit "```" ∷ [] in
      join newline (if is_empty e.body then lines else lines ++ detail)

  unfoldable pub status_of : AgentEvent → ConclusionStatus
  unfolding escalating
  status_of e = if escalating e.severity then needs_human else inconclusive

  -- `run_id or event.id`: the number of a UUID is never taken for false.
  unfoldable pub triage : ℕ → AgentEvent → Option ℕ → Conclusion
  unfolding status_of findings_of summary references
  triage elapsed_ms e run_id = record {
    run_id = elim run_id [ none ↦ e.id | some id ↦ id ];
    fingerprint = e.fingerprint;
    status = status_of e;
    confidence = elim e.entities [ [] ↦ 6 | x ∷ xs ↦ 9 ];
    summary_md = summary e (status_of e);
    findings = findings_of e;
    evidence_refs = references e;
    proposed_actions = elim e.entities [
      | [] ↦ lit "identify the affected subject: this alert carried no entity tags" ∷ []
      | x ∷ xs ↦ map (λ (y : Entity). lit "inspect " ++ (y.type ++ (b' ' ∷ y.id))) (x ∷ xs)
    ];
    tokens_spent = 0;
    wall_ms = max 1 elapsed_ms;
  }
