-- ===== src/Recorder/Offsets.antt =====
-- Where the lines of the flight recorder stand in its file (recorder/writer.py).
use smokejumper.Prelude.{ℕ, ◌+◌, ◌≡◌, refl, ◌∙◌, sym, ap, List, [], ◌∷◌, ◌++◌, arith, ok}
use smokejumper.Recorder.{
  AuditEvent, Disk, stored, refused, unsure, Recorder, numbered, append, start_offset,
}

module _ (disk : ℕ → Disk) (line_size : AuditEvent → ℕ) where
  -- The bytes of some lines.
  unfoldable pub total : List AuditEvent → ℕ
  total [] = 0
  total (e ∷ lines) = line_size e + total lines

  total-append :
      (lines : List AuditEvent) (e : AuditEvent)
      → total (lines ++ e ∷ []) ≡ total lines + line_size e
  unfolding total
  total-append [] e = omega arith
  total-append (d ∷ lines) e = omega (arith, total-append lines e)

  -- The file is as long as its lines.
  unfoldable pub IsSized : Recorder → Type 0
  IsSized r = start_offset r ≡ total r.lines

  abbrev next_line : AuditEvent → Recorder → AuditEvent
  next_line e r = numbered (r.last_seq e.run_id + 1) e

  landed :
      (e : AuditEvent) (r : Recorder)
      → r.size ≡ total r.lines
      → r.size + line_size (next_line e r) ≡ total (r.lines ++ next_line e r ∷ [])
  landed e r sized =
      ap (λ n. n + line_size (next_line e r)) sized ∙ sym (total-append r.lines (next_line e r))

  -- On every outcome of a write the file stays as long as its lines.
  append-IsSized :
      (e : AuditEvent) (r : Recorder) → IsSized r → IsSized (append disk line_size e r).1
  unfolding append IsSized start_offset
  append-IsSized e r sized = go (disk r.writes) refl
    where
      go : (d : Disk) → disk r.writes ≡ d → IsSized (append disk line_size e r).1
      go stored h = rw (h, append) (landed e r sized)
      go refused h = rw (h, append) sized
      go unsure h = rw (h, append) (landed e r sized)

  -- Where a write returns in a file as long as its lines, its line is the last one, carries the number
  -- that is returned, stands where the file ended before, and ends at the offset that is returned,
  -- which is the end of the file.
  append_offsets :
      (e : AuditEvent) (r : Recorder) {seq end_offset : ℕ}
      → IsSized r
      → (append disk line_size e r).0 ≡ ok (seq, end_offset)
      → ((append disk line_size e r).1.lines ≡ r.lines ++ numbered seq e ∷ [])
        × (end_offset ≡ start_offset r + line_size (numbered seq e))
        × (end_offset ≡ total (append disk line_size e r).1.lines)
  unfolding append IsSized start_offset
  append_offsets e r {seq} {end_offset} sized returned = go (disk r.writes) refl
    where
      go :
          (d : Disk)
          → disk r.writes ≡ d
          → ((append disk line_size e r).1.lines ≡ r.lines ++ numbered seq e ∷ [])
            × (end_offset ≡ start_offset r + line_size (numbered seq e))
            × (end_offset ≡ total (append disk line_size e r).1.lines)
      go refused h = cc (rw (h, append) at returned)
      go unsure h = cc (rw (h, append) at returned)
      go stored h =
          let answer = rw (h, append) at returned in
          let same_seq : r.last_seq e.run_id + 1 ≡ seq = cc answer in
          let same_end : r.size + line_size (next_line e r) ≡ end_offset = cc answer in
          rw (h, append)
            (
              ap (λ n. r.lines ++ numbered n e ∷ []) same_seq,
              sym same_end ∙ ap (λ n. r.size + line_size (numbered n e)) same_seq,
              sym same_end ∙ landed e r sized,
            )
