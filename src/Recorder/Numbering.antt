-- ===== src/Recorder/Numbering.antt =====
-- The sequence numbers of recorder/writer.py, on every outcome of a write.
use smokejumper.Prelude.{
  ℕ, ◌+◌, ◌≤◌, ◌<◌, ◌≡◌, refl, ◌==◌, ==_refl, List, [], ◌∷◌, ◌++◌, All, All-append, All-imp, arith,
  Bool-cases, inl, inr,
}
use smokejumper.Recorder.{
  AuditEvent, Disk, stored, refused, unsure, Recorder, set_seq, numbered, append,
}

-- The lines of one run carry numbers that increase.
abbrev pub Increasing : List AuditEvent → Type 0
Increasing [] = Unit
Increasing (e ∷ es) =
    All (λ (f : AuditEvent). e.run_id ≡ f.run_id → e.seq < f.seq) es × Increasing es

abbrev pub IsIssued : (ℕ → ℕ) → AuditEvent → Type 0
IsIssued last_seq e = e.seq ≤ last_seq e.run_id

-- No line has a number that was not given out yet.
pub record IsNumbered (r : Recorder) : Type 0 where
  pub issued : All (IsIssued r.last_seq) r.lines
  pub increasing : Increasing r.lines

Increasing-append :
    (es : List AuditEvent) (f : AuditEvent)
    → Increasing es
    → All (λ (e : AuditEvent). e.run_id ≡ f.run_id → e.seq < f.seq) es
    → Increasing (es ++ f ∷ [])
Increasing-append [] f h k = (tt, tt)
Increasing-append (e ∷ es) f (here, behind) (below, k) = (
  All-append (λ (g : AuditEvent). e.run_id ≡ g.run_id → e.seq < g.seq) es (f ∷ []) here (below, tt),
  Increasing-append es f behind k,
)

module _ (run : ℕ) (last_seq : ℕ → ℕ) where
  abbrev raised : ℕ → ℕ
  raised = set_seq run (last_seq run + 1) last_seq

  -- Giving out a number keeps the others.
  IsIssued-still : (e : AuditEvent) → IsIssued last_seq e → IsIssued raised e
  IsIssued-still e h = elim (Bool-cases (e.run_id == run)) [
    | inl same ↦ let id : e.run_id ≡ run = ground arith in ground (arith, id)
    | inr other_run ↦ ground arith
  ]

  below_next :
      (f : AuditEvent) (e : AuditEvent)
      → f.run_id ≡ run
      → f.seq ≡ last_seq run + 1
      → IsIssued last_seq e
      → e.run_id ≡ f.run_id
      → e.seq < f.seq
  below_next f e filed numbered h same = ground arith

module _ (e : AuditEvent) (r : Recorder) (sound : IsNumbered r) where
  abbrev line : AuditEvent
  line = numbered (r.last_seq e.run_id + 1) e

  abbrev next : ℕ → ℕ
  next = raised e.run_id r.last_seq

  IsIssued-kept : All (IsIssued next) r.lines
  IsIssued-kept =
      All-imp (IsIssued r.last_seq) (IsIssued next) (IsIssued-still e.run_id r.last_seq) r.lines
        sound.issued

  IsIssued-line : IsIssued next line
  IsIssued-line = ground (arith, ==_refl e.run_id)

  IsIssued-longer : All (IsIssued next) (r.lines ++ line ∷ [])
  IsIssued-longer = All-append (IsIssued next) r.lines (line ∷ []) IsIssued-kept (IsIssued-line, tt)

  Increasing-longer : Increasing (r.lines ++ line ∷ [])
  Increasing-longer = Increasing-append r.lines line sound.increasing (
      All-imp (IsIssued r.last_seq) (λ (f : AuditEvent). f.run_id ≡ line.run_id → f.seq < line.seq)
        (λ f. below_next e.run_id r.last_seq line f refl refl) r.lines sound.issued)

  -- Whether a write is stored, refused, or stored with an error, afterwards too the lines of each run
  -- carry numbers that strictly increase, and no number above the last one given out for their run.
  pub append-IsNumbered :
      (disk : ℕ → Disk) (line_size : AuditEvent → ℕ) → IsNumbered (append disk line_size e r).1
  unfolding append
  append-IsNumbered disk line_size = by_outcome (disk r.writes) refl
    where
      by_outcome :
          (outcome : Disk) → disk r.writes ≡ outcome → IsNumbered (append disk line_size e r).1
      by_outcome stored h =
          rw (h, append) (record { issued = IsIssued-longer; increasing = Increasing-longer })
      by_outcome refused h =
          rw (h, append) (record { issued = IsIssued-kept; increasing = sound.increasing })
      by_outcome unsure h =
          rw (h, append) (record { issued = IsIssued-longer; increasing = Increasing-longer })
