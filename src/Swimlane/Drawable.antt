-- ===== src/Swimlane/Drawable.antt =====
-- architecture/_gen/swimlane.py: which diagrams `render` draws without raising.
use smokejumper.Prelude.{
  ℕ, zero, suc, ◌<◌, ◌≡◌, ◌↔◌, refl, ap, true, ltb, List, [], ◌∷◌, map, Text, length, All, ok,
  other, >>=-eq-ok, guard-eq-ok, arith, ◌==◌,
}
use smokejumper.Swimlane.{
  Step, Edge, Diagram, Colours, colours_of, Box, card, place_card, place_cards, at, connect,
  draw_edges, check_legend, Layout, render,
}

abbrev pub IsKind : Text → Type 0
IsKind kind = (colours : Colours) × (colours_of kind ≡ ok colours)

abbrev pub IsPlaced : Diagram → Step → Type 0
IsPlaced d s = IsKind s.kind × (s.lane < length d.lanes)

-- Each kind is in the palette, each step in a lane, and each edge between two steps.
pub record IsDrawable (d : Diagram) : Type 0 where
  pub legend_kinds : All (λ ((kind, _) : Text × Text). IsKind kind) d.legend
  pub placed : All (IsPlaced d) d.steps
  pub between :
      All (λ (e : Edge). (e.source < length d.steps) × (e.target < length d.steps)) d.edges

at-ok : {A : Type 0} (xs : List A) (n : ℕ) → ((x : A) × (at xs n ≡ ok x)) ↔ (n < length xs)
unfolding at
at-ok [] n = (λ (x, e). cc e, λ below. absurd (omega (arith, below)))
at-ok (x ∷ xs) zero = (λ _. omega arith, λ _. (x, refl))
at-ok (x ∷ xs) (suc n) =
    (λ found. omega (arith, (at-ok xs n).0 found), λ below. (at-ok xs n).1 (omega (arith, below)))

check_legend-ok :
    (legend : List (Text × Text))
    → (check_legend legend ≡ ok tt) ↔ All (λ ((kind, _) : Text × Text). IsKind kind) legend
unfolding check_legend
check_legend-ok [] = (λ _. tt, λ _. refl)
check_legend-ok ((kind, label) ∷ rest) = (
  λ e.
      let (colours, known, more) = >>=-eq-ok (colours_of kind) _ e in
      ((colours, known), (check_legend-ok rest).0 more),
  λ ((colours, known), more). rw known ((check_legend-ok rest).1 more),
)

ltb_iff : (m n : ℕ) → (ltb m n ≡ true) ↔ (m < n)
ltb_iff m n = (λ e. ground arith, λ below. ground arith)

module _ (d : Diagram) where
  place_cards-ok :
      (steps : List Step) → All (IsPlaced d) steps → place_cards d steps ≡ ok (map (card d) steps)
  unfolding place_cards
  place_cards-ok [] h = refl
  place_cards-ok (s ∷ steps) (((colours, known), below), rest) =
      rw (known, (ltb_iff s.lane (length d.lanes)).1 below, place_cards-ok steps rest) refl

  IsPlaced-of_ok :
      (steps : List Step) (boxes : List Box)
      → place_cards d steps ≡ ok boxes
      → All (IsPlaced d) steps
  unfolding place_cards
  IsPlaced-of_ok [] boxes e = tt
  IsPlaced-of_ok (s ∷ steps) boxes e =
      let (box, here, more) = >>=-eq-ok (place_card d s) _ e in
      let (others, placed, _) = >>=-eq-ok (place_cards d steps) _ more in
      let (colours, known, guarded) = >>=-eq-ok (colours_of s.kind) _ here in
      let (inside, _) = guard-eq-ok (ltb s.lane (length d.lanes)) other _ guarded in
      (
        ((colours, known), (ltb_iff s.lane (length d.lanes)).0 inside),
        IsPlaced-of_ok steps others placed,
      )

  abbrev IsBetween : Edge → Type 0
  IsBetween e = (e.source < length d.steps) × (e.target < length d.steps)

  draw_edges-ok :
      (boxes : List Box) (edges : List Edge)
      → length boxes ≡ length d.steps
      → All IsBetween edges
      → (lines : List (List (ℕ × ℕ))) × (draw_edges d boxes edges ≡ ok lines)
  unfolding draw_edges
  draw_edges-ok boxes [] same h = ([], refl)
  draw_edges-ok boxes (e ∷ edges) same ((from, to), rest) =
      let (a, found_a) = (at-ok boxes e.source).1 (omega (arith, from, same)) in
      let (b, found_b) = (at-ok boxes e.target).1 (omega (arith, to, same)) in
      let (s, found_s) = (at-ok d.steps e.source).1 from in
      let (t, found_t) = (at-ok d.steps e.target).1 to in
      let (lines, drawn) = draw_edges-ok boxes edges same rest in
      (connect (s.col == t.col) a b ∷ lines, rw (found_a, found_b, found_s, found_t, drawn) refl)

  IsBetween-of_ok :
      (boxes : List Box) (edges : List Edge) (lines : List (List (ℕ × ℕ)))
      → draw_edges d boxes edges ≡ ok lines
      → All IsBetween edges
  unfolding draw_edges
  IsBetween-of_ok boxes [] lines e = tt
  IsBetween-of_ok boxes (f ∷ edges) lines e =
      let (a, _, e1) = >>=-eq-ok (at boxes f.source) _ e in
      let (b, _, e2) = >>=-eq-ok (at boxes f.target) _ e1 in
      let (s, found_s, e3) = >>=-eq-ok (at d.steps f.source) _ e2 in
      let (t, found_t, e4) = >>=-eq-ok (at d.steps f.target) _ e3 in
      let (rest, drawn, _) = >>=-eq-ok (draw_edges d boxes edges) _ e4 in
      (
        ((at-ok d.steps f.source).0 (s, found_s), (at-ok d.steps f.target).0 (t, found_t)),
        IsBetween-of_ok boxes edges rest drawn,
      )

  length-map-card : (steps : List Step) → length (map (card d) steps) ≡ length steps
  length-map-card [] = refl
  length-map-card (s ∷ steps) = ap suc (length-map-card steps)

  -- A diagram is drawn, with the card of each of its steps, exactly where each kind of a step and of
  -- the legend is in the palette, each step is in a lane of the diagram, and each edge joins two of
  -- its steps; otherwise the renderer raises.
  pub render_iff :
      ((l : Layout) × (render d ≡ ok l) × (l.cards ≡ map (card d) d.steps)) ↔ IsDrawable d
  unfolding render
  render_iff = (
    λ (l, e, _).
        let (u, legend, e1) = >>=-eq-ok (check_legend d.legend) _ e in
        let (boxes, placed, e2) = >>=-eq-ok (place_cards d d.steps) _ e1 in
        let (lines, drawn, _) = >>=-eq-ok (draw_edges d boxes d.edges) _ e2 in
        record {
          legend_kinds = (check_legend-ok d.legend).0 legend;
          placed = IsPlaced-of_ok d.steps boxes placed;
          between = IsBetween-of_ok boxes d.edges lines drawn;
        },
    λ drawable.
        let boxes = map (card d) d.steps in
        let (lines, drawn) =
          draw_edges-ok boxes d.edges (length-map-card d.steps) drawable.between in
        (
          record { cards = boxes; edges = lines },
          rw
              (
                (check_legend-ok d.legend).1 drawable.legend_kinds,
                place_cards-ok d.steps drawable.placed,
                drawn,
              )
              refl,
          refl,
        ),
  )
