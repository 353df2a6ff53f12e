-- ===== src/Contracts/Fingerprint.antt =====
-- src/smokejumper/contracts/fingerprint.py: the canonical incident fingerprint, byte for byte.
pub mod Order
pub mod Decode
pub mod Identity
use smokejumper.Prelude.{
  ℕ, ◌+◌, ◌-◌, ◌/◌, ◌%◌, Bool, ◌&&◌, ◌||◌, List, [], ◌∷◌, ◌++◌, map, Text, lit, text_eq, text_lt,
  ltb, leb, ◌==◌, any, Result, ok, err, value_error, if◌then◌else◌,
}
use smokejumper.Prelude.Sorted.{sorted}

-- `(type, id)`, as the normalizers hand it over.
abbrev pub Pair : Type 0
Pair = Text × Text

-- Python's order on two-element lists, and on pairs.
unfoldable pub pair_lt : Pair → Pair → Bool
pair_lt (a, b) (c, d) = if text_eq a c then text_lt b d else text_lt a c

unfoldable pub hex_digit : ℕ → ℕ
hex_digit n = if ltb n 10 then b'0' + n else b'a' + (n - 10)

-- The string encoder of `json.dumps(…, ensure_ascii=False)`: the quote, the backslash and the
-- control characters are escaped, every other code point stands for itself.
unfoldable pub escape : ℕ → Text
unfolding hex_digit
escape c =
    if c == b'"'
    then lit "\\\""
    else if c == b'\\'
    then lit "\\\\"
    else if c == 10
    then lit "\\n"
    else if c == 13
    then lit "\\r"
    else if c == 9
    then lit "\\t"
    else if c == 12
    then lit "\\f"
    else if c == 8
    then lit "\\b"
    else if ltb c 32
    then lit "\\u00" ++ hex_digit (c / 16) ∷ hex_digit (c % 16) ∷ []
    else c ∷ []

unfoldable pub escape_all : Text → Text
escape_all [] = []
escape_all (c ∷ s) = escape c ++ escape_all s

unfoldable pub json_string : Text → Text
json_string s = b'"' ∷ (escape_all s ++ b'"' ∷ [])

unfoldable pub json_pair : Pair → Text
json_pair (a, b) = b'[' ∷ (json_string a ++ (b',' ∷ (json_string b ++ b']' ∷ [])))

-- The elements behind the first, each behind its separator, and the bracket that closes the list.
unfoldable pub json_more : List Pair → Text
json_more [] = b']' ∷ []
json_more (p ∷ ps) = b',' ∷ (json_pair p ++ json_more ps)

unfoldable pub json_pairs : List Pair → Text
json_pairs [] = lit "[]"
json_pairs (p ∷ ps) = b'[' ∷ (json_pair p ++ json_more ps)

-- `json.dumps([source, source_event_key, sorted_entities], separators=(",", ":"), …)`
unfoldable pub canonical : Text → Text → List Pair → Text
canonical source key entities =
    b'['
    ∷ (json_string source
        ++ (b','
            ∷ (json_string key ++ (b',' ∷ (json_pairs (sorted pair_lt entities) ++ b']' ∷ [])))))

-- A lone surrogate has no UTF-8 encoding.
unfoldable pub is_surrogate : ℕ → Bool
is_surrogate c = leb 0xD800 c && leb c 0xDFFF

-- The digest is `hashlib`'s: SHA-256 in hexadecimal of the UTF-8 encoding of a text.
module _ (sha256_hex : Text → Text) where
  unfoldable pub event_fingerprint : Text → Text → List Pair → Result Text
  unfolding canonical is_surrogate
  event_fingerprint source key entities =
      let text = canonical source key entities in
      if any is_surrogate text then err value_error else ok (sha256_hex text)
