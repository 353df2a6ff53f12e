-- ===== src/Swimlane/Apart.antt =====
-- architecture/_gen/swimlane.py: the cards that `render` draws do not meet.
use mathlib.Core.List.{Memᴰ}
use native.Mathlib.Nat.{mul-le-mul_right}
use smokejumper.Prelude.{
  ℕ, zero, suc, ◌+◌, ◌-◌, ◌*◌, ◌≤◌, ◌<◌, ◌≡◌, ◌≢◌, refl, sym, ap, subst, ◌⊎◌, inl, inr, Bool-cases,
  ltb, ◌==◌, List, [], ◌∷◌, map, length, All, All-imp, ok, arith,
}
use smokejumper.Swimlane.{
  Step, Diagram, Box, badge_h, card_h, tallest, lane_h, height_of, grid_x, card, Layout, render,
}
use smokejumper.Swimlane.Drawable.{IsPlaced, IsDrawable, render_iff}

-- One box ends before the other begins, with this much between them.
abbrev pub IsLeftOf : ℕ → Box → Box → Type 0
IsLeftOf gap a b = a.left + a.width + gap ≤ b.left

abbrev pub IsAbove : ℕ → Box → Box → Type 0
IsAbove gap a b = a.top + a.height + gap ≤ b.top

abbrev pub Pairwise : {A : Type 0} → (A → A → Type 0) → List A → Type 0
Pairwise R [] = Unit
Pairwise R (x ∷ xs) = All (R x) xs × Pairwise R xs

-- The steps lie in different lanes, or one ends before the column of the other.
abbrev pub ShareNoCell : Step → Step → Type 0
ShareNoCell s t = (s.lane ≢ t.lane) ⊎ (s.col + s.span ≤ t.col) ⊎ (t.col + t.span ≤ s.col)

module _ (d : Diagram) where
  tallest-bounds :
      (li : ℕ) (s : Step) (steps : List Step)
      → Memᴰ s steps
      → s.lane ≡ li
      → card_h d s ≤ tallest d li steps
  unfolding tallest card_h
  tallest-bounds li s [] m here = elim m [ ]
  tallest-bounds li s (t ∷ steps) (Memᴰ.head e) here = ground (
    arith,
    ap (λ (x : Step). d.line_h * length x.lines + badge_h x.badge) e,
    ap (λ (x : Step). x.lane) e,
  )
  tallest-bounds li s (t ∷ steps) (Memᴰ.tail m) here =
      ground (arith, tallest-bounds li s steps m here)

  -- A card is lower than its lane by 24 pixels or more.
  card_h-bounds : (s : Step) → Memᴰ s d.steps → card_h d s + 24 ≤ lane_h d s.lane
  unfolding lane_h
  card_h-bounds s m = ground (arith, tallest-bounds s.lane s d.steps m refl)

  lanes_in_order : (i j : ℕ) → i < j → height_of d i + lane_h d i ≤ height_of d j
  unfolding height_of
  lanes_in_order i zero below = absurd (omega (arith, below))
  lanes_in_order i (suc j) below = elim (Bool-cases (i == j)) [
    | inl last ↦
        let same : i ≡ j = ground arith in
        subst (λ k. height_of d i + lane_h d i ≤ height_of d k + lane_h d k) same (omega arith)
    | inr other ↦ let earlier : i < j = ground arith in omega (arith, lanes_in_order i j earlier)
  ]

  cards_in_lanes :
      (s t : Step)
      → Memᴰ s d.steps
      → Memᴰ t d.steps
      → s.lane < t.lane
      → IsAbove 96 (card d s) (card d t)
  unfolding card
  cards_in_lanes s t m n below =
      omega (arith, card_h-bounds s m, card_h-bounds t n, lanes_in_order s.lane t.lane below)

  cards_in_columns :
      (s t : Step)
      → d.card_w ≤ d.col_w
      → 1 ≤ s.span
      → s.col + s.span ≤ t.col
      → IsLeftOf (4 * (d.col_w - d.card_w)) (card d s) (card d t)
  unfolding card
  cards_in_columns s t narrow spans before =
      let whole : s.span - 1 + 1 ≡ s.span = omega (arith, spans) in
      let moved : (s.col + (s.span - 1 + 1)) * d.col_w ≤ t.col * d.col_w =
        mul-le-mul_right d.col_w (omega (arith, before, spans)) in
      omega (arith, narrow, moved)

  -- Some pixels lie between two cards: 24 from one lane to another, or what a column is wider than
  -- a card.
  abbrev pub AreApart : Box → Box → Type 0
  AreApart a b =
      (IsAbove 96 a b ⊎ IsAbove 96 b a)
      ⊎ (IsLeftOf (4 * (d.col_w - d.card_w)) a b ⊎ IsLeftOf (4 * (d.col_w - d.card_w)) b a)

  abbrev pub SpansSome : Step → Type 0
  SpansSome s = 1 ≤ s.span

  -- A column or more, and no column that is not there.
  abbrev pub EndsInGrid : Step → Type 0
  EndsInGrid s = SpansSome s × (s.col + s.span ≤ length d.columns)

  -- The box lies on the grid of lanes and columns.
  abbrev pub IsOnGrid : Box → Type 0
  IsOnGrid b =
      (4 * grid_x d ≤ b.left)
      × (b.left + b.width ≤ 4 * (grid_x d + length d.columns * d.col_w))
      × (4 * 150 ≤ b.top)
      × (b.top + b.height ≤ 4 * (150 + height_of d (length d.lanes)))

  card-IsOnGrid :
      (s : Step)
      → Memᴰ s d.steps
      → d.card_w ≤ d.col_w
      → EndsInGrid s
      → s.lane < length d.lanes
      → IsOnGrid (card d s)
  unfolding card
  card-IsOnGrid s m narrow (spans, ends) below =
      let whole : s.span - 1 + 1 ≡ s.span = omega (arith, spans) in
      let moved : (s.col + (s.span - 1 + 1)) * d.col_w ≤ length d.columns * d.col_w =
        mul-le-mul_right d.col_w (omega (arith, ends, spans)) in
      (
        omega arith,
        omega (arith, narrow, moved),
        omega arith,
        omega (arith, card_h-bounds s m, lanes_in_order s.lane (length d.lanes) below),
      )

  module _ (narrow : d.card_w ≤ d.col_w) where
    cards-IsOnGrid :
        (steps : List Step)
        → ((t : Step) → Memᴰ t steps → Memᴰ t d.steps)
        → All EndsInGrid steps
        → All (IsPlaced d) steps
        → All IsOnGrid (map (card d) steps)
    cards-IsOnGrid [] within ends placed = tt
    cards-IsOnGrid (s ∷ steps) within (end, ends) ((_, below), placed) = (
      card-IsOnGrid s (within s (Memᴰ.head refl)) narrow end below,
      cards-IsOnGrid steps (λ u n. within u (Memᴰ.tail n)) ends placed,
    )

    two_cards :
        (s t : Step)
        → Memᴰ s d.steps
        → Memᴰ t d.steps
        → SpansSome s
        → SpansSome t
        → ShareNoCell s t
        → AreApart (card d s) (card d t)
    two_cards s t m n one_s one_t (inr (inl before)) =
        inr (inl (cards_in_columns s t narrow one_s before))
    two_cards s t m n one_s one_t (inr (inr behind)) =
        inr (inr (cards_in_columns t s narrow one_t behind))
    two_cards s t m n one_s one_t (inl other_lanes) = elim (Bool-cases (ltb s.lane t.lane)) [
      | inl below ↦ inl (inl (cards_in_lanes s t m n (ground arith)))
      | inr not_below ↦
          let above : t.lane < s.lane = ground (arith, other_lanes) in
          inl (inr (cards_in_lanes t s n m above))
    ]

    one_card :
        (s : Step) (steps : List Step)
        → Memᴰ s d.steps
        → SpansSome s
        → ((t : Step) → Memᴰ t steps → Memᴰ t d.steps)
        → All SpansSome steps
        → All (ShareNoCell s) steps
        → All (AreApart (card d s)) (map (card d) steps)
    one_card s [] m one_s within ones apart = tt
    one_card s (t ∷ steps) m one_s within (one_t, ones) (apart, aparts) = (
      two_cards s t m (within t (Memᴰ.head refl)) one_s one_t apart,
      one_card s steps m one_s (λ u n. within u (Memᴰ.tail n)) ones aparts,
    )

    all_cards :
        (steps : List Step)
        → ((t : Step) → Memᴰ t steps → Memᴰ t d.steps)
        → All SpansSome steps
        → Pairwise ShareNoCell steps
        → Pairwise AreApart (map (card d) steps)
    all_cards [] within ones apart = tt
    all_cards (s ∷ steps) within (one, ones) (apart, aparts) = (
      one_card s steps (within s (Memᴰ.head refl)) one (λ u n. within u (Memᴰ.tail n)) ones apart,
      all_cards steps (λ u n. within u (Memᴰ.tail n)) ones aparts,
    )

    -- Where cards are no wider than columns, each kind is in the palette, each step in a lane and in
    -- a column or more that are there, each edge between two steps, and no two steps share a cell of
    -- the grid: the diagram is drawn, each card lies on the grid, and any two cards have 24 pixels of
    -- height between them, or the width that a column has beside a card.
    pub render_apart :
        IsDrawable d
        → All EndsInGrid d.steps
        → Pairwise ShareNoCell d.steps
        → (l : Layout) × (render d ≡ ok l) × All IsOnGrid l.cards × Pairwise AreApart l.cards
    render_apart drawable ends apart =
        let (l, drawn, cards) = (render_iff d).1 drawable in
        let ones = All-imp EndsInGrid SpansSome (λ (s : Step) end. end.0) d.steps ends in
        (
          l,
          drawn,
          subst (All IsOnGrid) (sym cards) (cards-IsOnGrid d.steps (λ t m. m) ends drawable.placed),
          subst (Pairwise AreApart) (sym cards) (all_cards d.steps (λ t m. m) ones apart),
        )
