-- ===== src/Contracts/Json.antt =====
-- JSON documents as `json.loads` returns them, and Python's `str` and truth value of one.
use smokejumper.Prelude.{
  ℕ, zero, suc, ◌+◌, ◌/◌, ◌%◌, Bool, true, false, Option, none, some, [], ◌∷◌, Text, lit, text_eq,
  ltb, is_empty, not, ◌&&◌, ◌==◌, if◌then◌else◌,
}

-- A `float` keeps its `repr`; an `int` is a sign and a magnitude. The keys of an object are
-- distinct, in their order.
mutual
  pub data Json : Type 0 where
    null : Json
    bool : Bool → Json
    int : Bool → ℕ → Json
    float : Text → Json
    str : Text → Json
    arr : Items → Json
    obj : Fields → Json

  pub data Items : Type 0 where
    nil : Items
    cons : Json → Items → Items

  pub data Fields : Type 0 where
    end : Fields
    field : Text → Json → Fields → Fields

-- `d.get(key)`
unfoldable pub get : Text → Fields → Option Json
get key end = none
get key (field k v d) = if text_eq k key then some v else get key d

-- The decimal digits of a number, on fuel; the number itself is fuel enough.
unfoldable pub decimal_from : ℕ → ℕ → Text → Text
decimal_from zero n acc = (b'0' + n) ∷ acc
decimal_from (suc fuel) n acc = elim (ltb n 10) [
  | true ↦ (b'0' + n) ∷ acc
  | false ↦ decimal_from fuel (n / 10) ((b'0' + n % 10) ∷ acc)
]

unfoldable pub decimal : ℕ → Text
unfolding decimal_from
decimal n = decimal_from n n []

-- Python's `repr` of a float, a list or a dict is taken from outside.
module _ (render : Json → Text) where
  unfoldable pub py_str : Json → Text
  unfolding decimal
  py_str null = lit "None"
  py_str (bool true) = lit "True"
  py_str (bool false) = lit "False"
  py_str (int true n) = b'-' ∷ decimal n
  py_str (int false n) = decimal n
  py_str (str s) = s
  py_str (float s) = s
  py_str (arr xs) = render (arr xs)
  py_str (obj d) = render (obj d)

-- `bool(value)`: a float is false where its `repr` is that of a zero.
unfoldable pub truthy : Json → Bool
truthy null = false
truthy (bool b) = b
truthy (int sign n) = not (n == 0)
truthy (float s) = not (text_eq s (lit "0.0")) && not (text_eq s (lit "-0.0"))
truthy (str s) = not (is_empty s)
truthy (arr nil) = false
truthy (arr (cons x xs)) = true
truthy (obj end) = false
truthy (obj (field k v d)) = true
