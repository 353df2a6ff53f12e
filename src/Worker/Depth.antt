-- ===== src/Worker/Depth.antt =====
-- src/smokejumper/worker.py: `queue_depth`.
use smokejumper.Prelude.{
  ℕ, Bool, true, false, ◌&&◌, Option, none, some, List, [], ◌∷◌, Text, lit, text_eq, Result, ok,
  ◌>>=◌, if◌then◌else◌,
}

-- What redis-py may return of a reply: text, the bytes of a text, a number, or `None`.
pub data Value : Type 0 where
  text bytes : Text → Value
  number : ℕ → Value
  nothing : Value

-- A mapping keyed by texts, decoded (`true`) or left as bytes.
abbrev pub Group : Type 0
Group = List ((Bool × Text) × Value)

abbrev same_key : Bool → Bool → Bool
same_key true b = b
same_key false true = false
same_key false false = true

unfoldable pub get_key : Bool → Text → Group → Option Value
get_key decoded key [] = none
get_key decoded key (((d, k), v) ∷ rest) =
    let found = get_key decoded key rest in
    if same_key decoded d && text_eq k key then some v else found

-- `field`: the text key, or else the key as bytes.
unfoldable pub field_of : Group → Text → Option Value
unfolding get_key
field_of group key = elim (get_key true key group) [
  | some v ↦ some v
  | none ↦ get_key false key group
]

abbrev pub group_name : Text
group_name = lit "intelligence"

-- `name == GROUP`, after bytes have been decoded.
abbrev pub is_our_group : Option Value → Bool
is_our_group (some (text name)) = text_eq name group_name
is_our_group (some (bytes name)) = text_eq name group_name
is_our_group _ = false

pub record Depth : Type 0 where
  pub lag : ℕ
  pub pending : ℕ

abbrev pub no_depth : Depth
no_depth = record { lag = 0; pending = 0 }

-- Python's `int` of a text is taken from outside.
module _ (int_of : Text → Result ℕ) where
  -- `int(value or 0)`
  abbrev pub count_of : Option Value → Result ℕ
  count_of none = ok 0
  count_of (some nothing) = ok 0
  count_of (some (number n)) = ok n
  count_of (some (text [])) = ok 0
  count_of (some (text (c ∷ s))) = int_of (c ∷ s)
  count_of (some (bytes [])) = ok 0
  count_of (some (bytes (c ∷ s))) = int_of (c ∷ s)

  abbrev depth_of : Group → Result Depth
  depth_of group = do
    lag ← count_of (field_of group (lit "lag"))
    pending ← count_of (field_of group (lit "pending"))
    ok (record { lag = lag; pending = pending })

  unfoldable pub depth_among : List Group → Result Depth
  unfolding field_of
  depth_among [] = ok no_depth
  depth_among (group ∷ groups) =
      let rest = depth_among groups in
      if is_our_group (field_of group (lit "name")) then depth_of group else rest

  -- `queue_depth`: no groups where XINFO answers an error, as it does before the stream exists.
  unfoldable pub queue_depth : Option (List Group) → Result Depth
  unfolding depth_among
  queue_depth none = ok no_depth
  queue_depth (some groups) = depth_among groups
