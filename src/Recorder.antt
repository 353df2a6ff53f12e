-- ===== src/Recorder.antt =====
-- src/smokejumper/recorder/writer.py: the append-only flight recorder.
--
-- The file is the list of its lines. What the disk does with one write, the size of a line and the
-- clock are parameters.
pub mod Numbering
pub mod Offsets
use smokejumper.Prelude.{
  ℕ, ◌+◌, Bool, ◌==◌, List, [], ◌∷◌, ◌++◌, select, Text, other, Result, ok, err, if◌then◌else◌,
}
use smokejumper.Contracts.Events.{AgentEvent}
use smokejumper.Contracts.Conclusions.{ConclusionStatus}

-- `AuditKind`, with the payloads that the worker records.
pub data Payload : Type 0 where
  event : AgentEvent → Payload
  transition : ConclusionStatus → ℕ → ℕ → Payload
  action : Text → Bool → ℕ → Bool → Payload

-- B8
pub record AuditEvent : Type 0 where
  pub run_id : ℕ
  pub seq : ℕ
  pub ts : ℕ
  pub actor : Text
  pub payload : Payload

-- One write and `fsync`: the line is on disk; nothing is; or the line is, and the call has failed.
pub data Disk : Type 0 where
  stored refused unsure : Disk

-- `last_seq` is `self._seq`, a dictionary with no entry where it holds 0.
pub record Recorder : Type 0 where
  pub lines : List AuditEvent
  pub size : ℕ
  pub last_seq : ℕ → ℕ
  pub failures : ℕ
  pub writes : ℕ

abbrev pub set_seq : ℕ → ℕ → (ℕ → ℕ) → ℕ → ℕ
set_seq run seq last_seq r = if r == run then seq else last_seq r

abbrev pub numbered : ℕ → AuditEvent → AuditEvent
numbered seq e = record e { seq = seq }

module _ (disk : ℕ → Disk) (line_size : AuditEvent → ℕ) where
  -- What a write leaves in the file.
  abbrev pub land : AuditEvent → Recorder → Recorder
  land line r = record r { lines = r.lines ++ line ∷ []; size = r.size + line_size line }

  abbrev pub counted : Recorder → Recorder
  counted r = record r { failures = r.failures + 1 }

  unfoldable pub append : AuditEvent → Recorder → Result (ℕ × ℕ) × Recorder
  append e r =
      let seq = r.last_seq e.run_id + 1 in
      let line = numbered seq e in
      let begun = record r { last_seq = set_seq e.run_id seq r.last_seq; writes = r.writes + 1 } in
      elim (disk r.writes) [
        | stored ↦ (ok (seq, r.size + line_size line), land line begun)
        | refused ↦ (err other, counted begun)
        | unsure ↦ (err other, counted (land line begun))
      ]

  unfoldable pub record_line : ℕ → ℕ → Text → Payload → Recorder → Result (ℕ × ℕ) × Recorder
  unfolding append
  record_line now run_id actor payload =
      append (record { run_id = run_id; seq = 1; ts = now; actor = actor; payload = payload })

unfoldable pub start_offset : Recorder → ℕ
start_offset r = r.size

unfoldable pub read_run : ℕ → Recorder → List AuditEvent
read_run run_id r = select (λ (e : AuditEvent). e.run_id == run_id) r.lines
