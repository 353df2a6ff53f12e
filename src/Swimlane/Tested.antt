-- ===== src/Swimlane/Tested.antt =====
-- A test of the diagrams that architecture/_gen/swimlane.py draws without raising and without cards
-- that meet.
use smokejumper.Prelude.{
  ◌+◌, ◌≡◌, ◌<◌, ◌≤◌, refl, Bool, true, false, ◌&&◌, ◌||◌, not, ltb, leb, ◌==◌, inl, inr,
  Bool-cases, List, [], ◌∷◌, Text, length, All, Result, ok, err, arith,
}
use smokejumper.Swimlane.{Step, Edge, Diagram, Colours, colours_of}
use smokejumper.Swimlane.Drawable.{IsKind, IsPlaced, IsDrawable}
use smokejumper.Swimlane.Apart.{Pairwise, ShareNoCell, EndsInGrid}

abbrev all : {A : Type 0} → (A → Bool) → List A → Bool
all p [] = true
all p (x ∷ xs) = p x && all p xs

abbrev all_pairs : {A : Type 0} → (A → A → Bool) → List A → Bool
all_pairs p [] = true
all_pairs p (x ∷ xs) = all (p x) xs && all_pairs p xs

abbrev returns : Result Colours → Bool
returns (ok colours) = true
returns (err error) = false

abbrev has_kind : Text → Bool
has_kind kind = returns (colours_of kind)

abbrev share_no_cell : Step → Step → Bool
share_no_cell s t =
    not (s.lane == t.lane) || leb (s.col + s.span) t.col || leb (t.col + t.span) s.col

module _ (d : Diagram) where
  abbrev is_placed : Step → Bool
  is_placed s = has_kind s.kind && ltb s.lane (length d.lanes)

  abbrev is_between : Edge → Bool
  is_between e = ltb e.source (length d.steps) && ltb e.target (length d.steps)

  abbrev ends_in_grid : Step → Bool
  ends_in_grid s = leb 1 s.span && leb (s.col + s.span) (length d.columns)

  abbrev in_legend : Text × Text → Bool
  in_legend (kind, label) = has_kind kind

  unfoldable pub is_well_formed : Bool
  unfolding colours_of
  is_well_formed =
      leb d.card_w d.col_w
      && (all in_legend d.legend
          && (all is_placed d.steps
              && (all is_between d.edges
                  && (all ends_in_grid d.steps && all_pairs share_no_cell d.steps))))

both : (b c : Bool) → b && c ≡ true → (b ≡ true) × (c ≡ true)
both true c h = (refl, h)
both false c h = cc h

all-All :
    {A : Type 0} (p : A → Bool) (P : A → Type 0)
    → ((x : A) → p x ≡ true → P x)
    → (xs : List A) → all p xs ≡ true
    → All P xs
all-All p P sound [] e = tt
all-All p P sound (x ∷ xs) e =
    let (here, rest) = both (p x) (all p xs) e in (sound x here, all-All p P sound xs rest)

all_pairs-Pairwise :
    {A : Type 0} (p : A → A → Bool) (R : A → A → Type 0)
    → ((x y : A) → p x y ≡ true → R x y)
    → (xs : List A) → all_pairs p xs ≡ true
    → Pairwise R xs
all_pairs-Pairwise p R sound [] e = tt
all_pairs-Pairwise p R sound (x ∷ xs) e =
    let (here, rest) = both (all (p x) xs) (all_pairs p xs) e in
    (all-All (p x) (R x) (sound x) xs here, all_pairs-Pairwise p R sound xs rest)

returns-IsKind : (kind : Text) → has_kind kind ≡ true → IsKind kind
returns-IsKind kind e = by_result (colours_of kind) refl e
  where
    by_result : (r : Result Colours) → colours_of kind ≡ r → returns r ≡ true → IsKind kind
    by_result (ok colours) same h = (colours, same)
    by_result (err error) same h = cc h

share_no_cell-ShareNoCell : (s t : Step) → share_no_cell s t ≡ true → ShareNoCell s t
share_no_cell-ShareNoCell s t e = elim (Bool-cases (s.lane == t.lane)) [
  | inr apart ↦ inl (λ same. ground arith)
  | inl together ↦ elim (Bool-cases (leb (s.col + s.span) t.col)) [
    | inl before ↦ inr (inl (ground arith))
    | inr not_before ↦ inr (inr (ground arith))
  ]
]

module _ (d : Diagram) where
  is_placed-IsPlaced : (s : Step) → is_placed d s ≡ true → IsPlaced d s
  is_placed-IsPlaced s e =
      let (known, below) = both (has_kind s.kind) (ltb s.lane (length d.lanes)) e in
      (returns-IsKind s.kind known, ground arith)

  is_between_sound :
      (e : Edge) → is_between d e ≡ true → (e.source < length d.steps) × (e.target < length d.steps)
  is_between_sound e h =
      let (from, to) = both (ltb e.source (length d.steps)) (ltb e.target (length d.steps)) h in
      (ground arith, ground arith)

  ends_in_grid-EndsInGrid : (s : Step) → ends_in_grid d s ≡ true → EndsInGrid d s
  ends_in_grid-EndsInGrid s e =
      let (some_span, inside) = both (leb 1 s.span) (leb (s.col + s.span) (length d.columns)) e in
      (ground arith, ground arith)

  -- A diagram that passes the test has what its drawing needs.
  pub tested :
      is_well_formed d ≡ true
      → (d.card_w ≤ d.col_w)
        × IsDrawable d
        × All (EndsInGrid d) d.steps
        × Pairwise ShareNoCell d.steps
  unfolding is_well_formed
  tested e =
      let (narrow, e1) = both (leb d.card_w d.col_w) _ e in
      let (kinds, e2) = both (all (in_legend d) d.legend) _ e1 in
      let (places, e3) = both (all (is_placed d) d.steps) _ e2 in
      let (joins, e4) = both (all (is_between d) d.edges) _ e3 in
      let (ends, pairs) = both (all (ends_in_grid d) d.steps) _ e4 in
      (
        ground arith,
        (record {
          legend_kinds =
              all-All (in_legend d) (λ ((kind, _) : Text × Text). IsKind kind)
                (λ (kind, _) h. returns-IsKind kind h) d.legend kinds;
          placed = all-All (is_placed d) (IsPlaced d) is_placed-IsPlaced d.steps places;
          between =
              all-All (is_between d)
                (λ (f : Edge). (f.source < length d.steps) × (f.target < length d.steps))
                is_between_sound d.edges joins;
        }),
        (all-All (ends_in_grid d) (EndsInGrid d) ends_in_grid-EndsInGrid d.steps ends),
        (all_pairs-Pairwise share_no_cell ShareNoCell share_no_cell-ShareNoCell d.steps pairs),
      )
