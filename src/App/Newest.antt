-- ===== src/App/Newest.antt =====
-- src/smokejumper/app.py: which run `GET /runs/{fingerprint}` answers with.
use mathlib.Core.List.{Memᴰ}
use smokejumper.Prelude.{
  ℕ, ◌≤◌, ◌≡◌, refl, inl, inr, ◌⊎◌, Bool, true, false, Bool-cases, none, some, List, [], ◌∷◌, Text,
  text_eq, All, All-imp, mem-select, All-select-imp, select-eq-nil, arith, select, ltb,
}
use smokejumper.Persistence.{RunRow, Database}
use smokejumper.App.{newest, answer_of, joined_ticket, run_for}

module _ {A : Type 0} (time : A → ℕ) where
  abbrev IsNewest : List A → A → Type 0
  IsNewest rows b = Memᴰ b rows × All (λ c. time c ≤ time b) rows

  newest-IsNewest :
      (rows : List A)
      → ((newest time rows ≡ none) × (rows ≡ []))
        ⊎ ((b : A) × (newest time rows ≡ some b) × IsNewest rows b)
  unfolding newest
  newest-IsNewest [] = inl (refl, refl)
  newest-IsNewest (a ∷ rows) = elim (newest-IsNewest rows) [
    | inl (none_yet, nothing) ↦
        rw none_yet (inr (a, refl, (Memᴰ.head refl, (omega arith, rw nothing tt))))
    | inr (b, found, (mem, above)) ↦ elim (Bool-cases (ltb (time a) (time b))) [
      | inl later ↦ rw found (rw later (inr (b, refl, (Memᴰ.tail mem, (ground arith, above)))))
      | inr earlier ↦ rw found (
          rw earlier (
            inr (
              a,
              refl,
              (
                Memᴰ.head refl,
                (
                  omega arith,
                  All-imp (λ c. time c ≤ time b) (λ c. time c ≤ time a) (λ c h. ground arith) rows
                      above,
                ),
              ),
            )))
    ]
  ]

abbrev asked : Text → RunRow → Bool
asked f r = text_eq r.fingerprint f

abbrev of_fingerprint : Text → Database → List RunRow
of_fingerprint f db = select (asked f) db.runs

-- An operator who asks for a fingerprint is answered with a run of it that no other run of it was
-- started after; the answer is 404 only if it has no run.
pub run_for-newest :
    (f : Text) (db : Database)
    → ((run_for f db ≡ none) × All (λ (r : RunRow). text_eq r.fingerprint f ≡ false) db.runs)
      ⊎ ((r : RunRow) × (run_for f db ≡ some (answer_of r (joined_ticket r db)))
          × Memᴰ r db.runs
          × (text_eq r.fingerprint f ≡ true)
          × All
              (λ (q : RunRow). text_eq q.fingerprint f ≡ true → q.started_at ≤ r.started_at)
              db.runs)
unfolding run_for
run_for-newest f db = elim (newest-IsNewest (λ (r : RunRow). r.started_at) (of_fingerprint f db)) [
  | inl (missed, nothing) ↦
      inl (rw (missed, run_for) refl, (select-eq-nil (asked f) db.runs).0 nothing)
  | inr (r, found, (mem, latest)) ↦
      let (row, same) = mem-select (asked f) r db.runs mem in
      inr (
        r,
        rw (found, run_for) refl,
        row,
        same,
        All-select-imp (asked f) (λ (q : RunRow). q.started_at ≤ r.started_at) db.runs latest,
      )
]
