-- ===== src/Contracts/Conclusions.antt =====
-- src/smokejumper/contracts/assignments.py and conclusions.py: B11 findings and B6 conclusions.
use smokejumper.Prelude.{ℕ, List, Text, lit}

pub record Budget : Type 0 where
  pub tool_calls : ℕ
  pub tokens : ℕ

-- A confidence is a number of tenths.
pub record Finding : Type 0 where
  pub agent : Text
  pub hypothesis : Text
  pub evidence : List Text
  pub confidence : ℕ
  pub budget_spent : Budget

pub data ConclusionStatus : Type 0 where
  root_caused mitigated inconclusive needs_human : ConclusionStatus

unfoldable pub status_value : ConclusionStatus → Text
status_value root_caused = lit "root_caused"
status_value mitigated = lit "mitigated"
status_value inconclusive = lit "inconclusive"
status_value needs_human = lit "needs_human"

pub record Conclusion : Type 0 where
  pub run_id : ℕ
  pub fingerprint : Text
  pub status : ConclusionStatus
  pub confidence : ℕ
  pub summary_md : Text
  pub findings : List Finding
  pub evidence_refs : List Text
  pub proposed_actions : List Text
  pub tokens_spent : ℕ
  pub wall_ms : ℕ
