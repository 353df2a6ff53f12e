-- ===== src/Swimlane.antt =====
-- architecture/_gen/swimlane.py: where `render` places the lanes, cards and edges of a diagram.
--
-- Places are in quarters of a pixel, in which each half that the code takes is a whole number.
pub mod Drawable
pub mod Apart
pub mod Tested
pub mod Scenarios
pub mod Journeys
use smokejumper.Prelude.{
  ℕ, zero, suc, ◌+◌, ◌-◌, ◌*◌, ◌/◌, ◌==◌, Bool, true, false, ltb, Option, none, some, List, [], ◌∷◌,
  Text, lit, length, is_empty, text_eq, Error, other, Result, ok, err, ◌>>=◌, guard, ◌>>◌,
  if◌then◌else◌,
}

pub record Step : Type 0 where
  pub lane : ℕ
  pub col : ℕ
  pub title : Text
  pub lines : List Text
  pub kind : Text
  pub span : ℕ
  pub badge : Option Text

pub record Edge : Type 0 where
  pub source : ℕ
  pub target : ℕ
  pub label : Option Text

pub record Diagram : Type 0 where
  pub title : Text
  pub subtitle : Text
  pub lanes : List Text
  pub columns : List Text
  pub steps : List Step
  pub edges : List Edge
  pub footer : List Text
  pub legend : List (Text × Text)
  pub lane_w : ℕ
  pub col_w : ℕ
  pub card_w : ℕ
  pub line_h : ℕ
  pub pad : ℕ

-- A step of one column.
abbrev pub step : ℕ → ℕ → Text → List Text → Text → Option Text → Step
step lane col title lines kind badge = record {
  lane = lane;
  col = col;
  title = title;
  lines = lines;
  kind = kind;
  span = 1;
  badge = badge;
}

abbrev pub edge : ℕ → ℕ → Option Text → Edge
edge source target label = record { source = source; target = target; label = label }

abbrev pub Colours : Type 0
Colours = Text × Text × Text

abbrev colours_at : Text → List (Text × Colours) → Option Colours
colours_at kind [] = none
colours_at kind ((name, colours) ∷ rest) =
    let later = colours_at kind rest in if text_eq kind name then some colours else later

abbrev pub palette : List (Text × Colours)
palette =
    (lit "core", (lit "#e3f3f6", lit "#0b7285", lit "#0b3a42"))
    ∷ (lit "files", (lit "#e6f4ea", lit "#2b8a3e", lit "#1b4d24"))
    ∷ (lit "port", (lit "#f1f3f5", lit "#5b6b7a", lit "#3d4852"))
    ∷ (lit "gate", (lit "#fbf0da", lit "#9a6700", lit "#5c3d00"))
    ∷ (lit "audit", (lit "#efeafb", lit "#6741b8", lit "#2f1e5c"))
    ∷ (lit "store", (lit "#eef2fb", lit "#3f5b9a", lit "#1f2d4a"))
    ∷ (lit "human", (lit "#fff4e6", lit "#d9480f", lit "#6b2a00"))
    ∷ (lit "signal", (lit "#fff0f0", lit "#c92a2a", lit "#5c0d0d"))
    ∷ (lit "ok", (lit "#e6f4ea", lit "#2b8a3e", lit "#1b4d24"))
    ∷ []

-- `PALETTE[kind]`
unfoldable pub colours_of : Text → Result Colours
colours_of kind = elim (colours_at kind palette) [ none ↦ err other | some colours ↦ ok colours ]

abbrev larger : ℕ → ℕ → ℕ
larger a b = if ltb a b then b else a

-- `14 if s.badge else 0`
unfoldable pub badge_h : Option Text → ℕ
badge_h none = 0
badge_h (some badge) = if is_empty badge then 0 else 14

module _ (d : Diagram) where
  unfoldable pub card_h : Step → ℕ
  card_h s = 34 + d.line_h * length s.lines + 6 + badge_h s.badge

  unfoldable pub tallest : ℕ → List Step → ℕ
  tallest li [] = 0
  tallest li (s ∷ steps) =
      let rest = tallest li steps in
      if s.lane == li then larger rest (40 + d.line_h * length s.lines + badge_h s.badge) else rest

  -- `lane_h[li]`
  unfoldable pub lane_h : ℕ → ℕ
  lane_h li = larger 72 (tallest li d.steps + 24)

  unfoldable pub height_of : ℕ → ℕ
  height_of zero = 0
  height_of (suc n) = height_of n + lane_h n

  abbrev pub grid_x : ℕ
  grid_x = d.pad + d.lane_w

  abbrev pub grid_y : ℕ
  grid_y = 150

  -- `lane_y[li]`
  abbrev pub lane_y : ℕ → ℕ
  lane_y li = grid_y + height_of li

  abbrev pub canvas_w : ℕ
  canvas_w = grid_x + d.col_w * length d.columns + d.pad

  abbrev footer_h : List Text → ℕ
  footer_h [] = 0
  footer_h (line ∷ lines) = 30 + 16 * length (line ∷ lines)

  abbrev pub canvas_h : ℕ
  canvas_h = grid_y + height_of (length d.lanes) + 40 + footer_h d.footer + d.pad

-- A rectangle, in quarters of a pixel.
pub record Box : Type 0 where
  pub left : ℕ
  pub top : ℕ
  pub width : ℕ
  pub height : ℕ

module _ (d : Diagram) where
  -- The card of a step that spans a column or more.
  unfoldable pub card : Step → Box
  card s = record {
    left = 4 * (grid_x d + s.col * d.col_w) + 2 * (d.col_w - d.card_w);
    top = 4 * lane_y d s.lane + 2 * (lane_h d s.lane - card_h d s);
    width = 4 * (d.card_w + (s.span - 1) * d.col_w);
    height = 4 * card_h d s;
  }

  -- A kind that is not in the palette, or a lane that is not there, raises.
  abbrev pub place_card : Step → Result Box
  place_card s = do _ ← colours_of s.kind; guard (ltb s.lane (length d.lanes)) other; ok (card s)

  unfoldable pub place_cards : List Step → Result (List Box)
  place_cards [] = ok []
  place_cards (s ∷ steps) = do box ← place_card s; boxes ← place_cards steps; ok (box ∷ boxes)

unfoldable pub at : {A : Type 0} → List A → ℕ → Result A
at [] n = err other
at (x ∷ xs) zero = ok x
at (x ∷ xs) (suc n) = at xs n

abbrev Point : Type 0
Point = ℕ × ℕ

-- The corners of an edge: down or up within a column, else from right to left.
unfoldable pub connect : Bool → Box → Box → List Point
connect true a b =
    if ltb a.top b.top
    then (a.left + a.width / 2, a.top + a.height) ∷ (b.left + b.width / 2, b.top) ∷ []
    else (a.left + a.width / 2, a.top) ∷ (b.left + b.width / 2, b.top + b.height) ∷ []
connect false a b =
    let x1 = a.left + a.width in
    let y1 = a.top + a.height / 2 in
    let y2 = b.top + b.height / 2 in
    let mx = (x1 + b.left) / 2 in (x1, y1) ∷ (mx, y1) ∷ (mx, y2) ∷ (b.left, y2) ∷ []

module _ (d : Diagram) (boxes : List Box) where
  unfoldable pub draw_edges : List Edge → Result (List (List Point))
  draw_edges [] = ok []
  draw_edges (e ∷ edges) = do
    a ← at boxes e.source
    b ← at boxes e.target
    s ← at d.steps e.source
    t ← at d.steps e.target
    rest ← draw_edges edges
    ok (connect (s.col == t.col) a b ∷ rest)

unfoldable pub check_legend : List (Text × Text) → Result (Unit {0})
check_legend [] = ok tt
check_legend ((kind, label) ∷ rest) = do _ ← colours_of kind; check_legend rest

pub record Layout : Type 0 where
  pub cards : List Box
  pub edges : List (List Point)

-- What `render` draws on the grid.
unfoldable pub render : Diagram → Result Layout
render d = do
  check_legend d.legend
  boxes ← place_cards d d.steps
  lines ← draw_edges d boxes d.edges
  ok (record { cards = boxes; edges = lines })
