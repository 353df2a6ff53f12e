-- ===== src/Receiver/Repository/Dedupe.antt =====
-- What `admit` of receiver/repository.py decides, and that it counts every delivery once.
use mathlib.Core.List.{Memᴰ}
use smokejumper.Prelude.{
  ℕ, ◌+◌, ◌≡◌, ◌≢◌, refl, ap, Bool, true, false, inl, inr, Option, none, some, List, [], ◌∷◌, ◌++◌,
  arith, ◌==◌, ◌&&◌, All, All-mem, any_of_mem, any_of_All, any-append, ==_refl, text_eq_refl, subst,
  sym, ◌∙◌, any, Text, text_eq, text_eq_iff, ok, if◌then◌else◌,
}
use smokejumper.Contracts.Events.{AgentEvent}
use smokejumper.Persistence.{EventRow, Database}
use smokejumper.Persistence.Table.{update_where, any-update_where}
use smokejumper.Receiver.Repository.{
  Admission, column_eq, is_open, is_candidate, has_id, bump, new_row, admit,
}
use smokejumper.Receiver.Repository.Rows.{earliest-select, none_of_earliest, admit-eq-ok}

-- The primary key.
abbrev pub HasDistinctIds : List EventRow → Type 0
HasDistinctIds [] = Unit
HasDistinctIds (r ∷ rows) = All (λ s. s.id ≢ r.id) rows × HasDistinctIds rows

-- The deliveries of a fingerprint that the table has counted.
pub deliveries : Text → List EventRow → ℕ
deliveries f [] = 0
deliveries f (r ∷ rows) =
    (if column_eq r.fingerprint f then r.dedupe_count else 0) + deliveries f rows

bump_absent :
    (id : ℕ) (rows : List EventRow)
    → All (λ s. s.id ≢ id) rows
    → update_where (has_id id) bump rows ≡ rows
bump_absent id [] h = refl
bump_absent id (s ∷ rows) (h, hs) = ground (arith, bump_absent id rows hs)

bump_head :
    (s : EventRow) (rows : List EventRow)
    → All (λ t. t.id ≢ s.id) rows
    → update_where (has_id s.id) bump (s ∷ rows) ≡ bump s ∷ rows
bump_head s rows h = rw (==_refl s.id, bump_absent s.id rows h)

unlike_of_ne : (a b : ℕ) → a ≢ b → (b == a) ≡ false
unlike_of_ne a b h = ground arith

bump_other :
    (id : ℕ) (s : EventRow) (rows : List EventRow)
    → id ≢ s.id
    → update_where (has_id id) bump (s ∷ rows) ≡ s ∷ update_where (has_id id) bump rows
bump_other id s rows h = rw (unlike_of_ne id s.id h)

deliveries-bump :
    (f : Text) (r : EventRow) (rows : List EventRow)
    → HasDistinctIds rows
    → Memᴰ r rows
    → deliveries f (update_where (has_id r.id) bump rows)
      ≡ deliveries f rows + (if column_eq r.fingerprint f then 1 else 0)
unfolding deliveries
deliveries-bump f r [] d m = elim m [ ]
deliveries-bump f r (s ∷ rows) (d, ds) (Memᴰ.head e) =
    subst
      (λ (k : EventRow).
        deliveries f (update_where (has_id k.id) bump (s ∷ rows))
        ≡ deliveries f (s ∷ rows) + (if column_eq k.fingerprint f then 1 else 0))
      (sym e) (ap (deliveries f) (bump_head s rows d) ∙ ground arith)
deliveries-bump f r (s ∷ rows) (d, ds) (Memᴰ.tail m) =
    let apart : r.id ≢ s.id = All-mem (λ t. t.id ≢ s.id) rows d m in
    ap (deliveries f) (bump_other r.id s rows apart) ∙ omega (arith, deliveries-bump f r rows ds m)

deliveries-append :
    (f : Text) (rows : List EventRow) (s : EventRow)
    → deliveries f (rows ++ s ∷ [])
      ≡ deliveries f rows + (if column_eq s.fingerprint f then s.dedupe_count else 0)
unfolding deliveries
deliveries-append f [] s = omega arith
deliveries-append f (r ∷ rows) s = omega (arith, deliveries-append f rows s)

column_agree : (c : Option Text) (g f : Text) → column_eq c g ≡ true → column_eq c f ≡ text_eq g f
column_agree none g f h = cc
column_agree (some s) g f h = ap (λ t. text_eq t f) ((text_eq_iff s g).0 h)

candidate_column :
    (window : ℕ) (e : AgentEvent) (r : EventRow) (f : Text)
    → is_candidate window e r ≡ true
    → column_eq r.fingerprint f ≡ text_eq e.fingerprint f
unfolding is_open
candidate_column window e r f h = column_agree r.fingerprint e.fingerprint f (ground arith)

-- Where the ids of events are distinct, an admitted delivery is counted exactly once: the counts
-- of its own fingerprint add up to one more than before, those of any other to as many as before.
pub deliveries-admit :
    (window : ℕ) (e : AgentEvent) (f : Text) (db : Database) {a : Admission} {db' : Database}
    → HasDistinctIds db.events
    → admit window e db ≡ ok (a, db')
    → deliveries f db'.events ≡ deliveries f db.events + (if text_eq e.fingerprint f then 1 else 0)
deliveries-admit window e f db d h = elim (admit-eq-ok window e db h) [
  | inl (r, found, _, same) ↦
      let (m, passes) = earliest-select (is_candidate window e) db.events r found in
      rw (same, ← candidate_column window e r f passes) (deliveries-bump f r db.events d m)
  | inr (_, _, _, same) ↦ rw same (deliveries-append f db.events (new_row e))
]

-- The row with this key is open, for this fingerprint.
abbrev pub survives : ℕ → Text → EventRow → Bool
survives id f r = has_id id r && is_open f r

survives-bump : (id : ℕ) (f : Text) (r : EventRow) → survives id f (bump r) ≡ survives id f r
unfolding is_open
survives-bump id f r = refl

candidate-survives :
    (window : ℕ) (e : AgentEvent) (r : EventRow)
    → is_candidate window e r ≡ true
    → survives r.id e.fingerprint r ≡ true
candidate-survives window e r h = ground (arith, ==_refl r.id)

new_row-survives : (e : AgentEvent) → survives e.id e.fingerprint (new_row e) ≡ true
unfolding is_open
new_row-survives e = rw (==_refl e.id, text_eq_refl e.fingerprint)

-- An admitted delivery is answered as a duplicate exactly when an event of its fingerprint is
-- open and recent, and the event it is counted at is in the table, open, and of its fingerprint.
pub admit_exact :
    (window : ℕ) (e : AgentEvent) (db : Database) {a : Admission} {db' : Database}
    → admit window e db ≡ ok (a, db')
    → (a.is_duplicate ≡ any (is_candidate window e) db.events)
      × (any (survives a.event_id e.fingerprint) db'.events ≡ true)
admit_exact window e db h = elim (admit-eq-ok window e db h) [
  | inl (r, found, answer, same) ↦
      let (m, passes) = earliest-select (is_candidate window e) db.events r found in
      (
        rw answer (sym (any_of_mem (is_candidate window e) db.events m passes)),
        rw (same, answer)
            (any-update_where (survives r.id e.fingerprint) (has_id r.id) bump
                (survives-bump r.id e.fingerprint) db.events
              ∙ any_of_mem (survives r.id e.fingerprint) db.events m
                  (candidate-survives window e r passes)),
      )
  | inr (missed, _, answer, same) ↦ (
    rw answer (
        sym (
          any_of_All (is_candidate window e) db.events
            (none_of_earliest (is_candidate window e) db.events missed))),
    rw (same, answer)
        (any-append (survives e.id e.fingerprint) db.events (new_row e ∷ [])
          ∙ ground (arith, new_row-survives e)),
  )
]
