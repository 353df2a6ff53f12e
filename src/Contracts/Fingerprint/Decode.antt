-- ===== src/Contracts/Fingerprint/Decode.antt =====
-- A reader of the canonical text of contracts/fingerprint.py: the encoding loses nothing, whatever
-- stands behind it.
use mathlib.Core.List.{append_assoc, tail}
use smokejumper.Prelude.{
  ℕ, ◌+◌, ◌-◌, ◌*◌, ◌≡◌, sym, ap, ◌∙◌, Option, none, some, List, [], ◌∷◌, ◌++◌, arith, Text, ltb,
  ◌==◌, if◌then◌else◌,
}
use smokejumper.Contracts.Fingerprint.{
  Pair, escape, escape_all, json_string, json_pair, json_more, json_pairs, pair_lt, canonical,
}
use smokejumper.Prelude.Sorted.{sorted}

hex_value : ℕ → ℕ
hex_value d = if ltb d b'a' then d - b'0' else d - b'a' + 10

-- The four digits behind `\u`; the first two are zeros.
hex_escape : Text → Option (ℕ × Text)
unfolding hex_value
hex_escape (a ∷ b ∷ h ∷ l ∷ u) = some (hex_value h * 16 + hex_value l, u)
hex_escape _ = none

-- What stands behind a backslash.
escaped : Text → Option (ℕ × Text)
unfolding hex_escape
escaped [] = none
escaped (k ∷ u) =
    if k == b'u'
    then hex_escape u
    else if k == b'n'
    then some (10, u)
    else if k == b'r'
    then some (13, u)
    else if k == b't'
    then some (9, u)
    else if k == b'f'
    then some (12, u)
    else if k == b'b'
    then some (8, u)
    else some (k, u)

-- The first code point of a string's body, and what is left; `none` at the closing quote.
unescape : Text → Option (ℕ × Text)
unfolding escaped
unescape [] = none
unescape (c ∷ u) = if c == b'"' then none else if c == b'\\' then escaped u else some (c, u)

unescape-escape : (c : ℕ) (u : Text) → unescape (escape c ++ u) ≡ some (c, u)
unfolding unescape escape
unescape-escape c u = ground arith

step : (c : ℕ) (s u : Text) → unescape (escape_all (c ∷ s) ++ u) ≡ some (c, escape_all s ++ u)
unfolding escape_all
step c s u = rw append_assoc (unescape-escape c (escape_all s ++ u))

read_injective :
    (c d : ℕ) (u v : Text)
    → ◌≡◌ {A = Option (ℕ × Text)} (some (c, u)) (some (d, v))
    → (c ≡ d) × (u ≡ v)
read_injective c d u v e = ground arith

-- A body ends at its first quote that is not escaped.
body_injective :
    (s t : Text) (u v : Text)
    → escape_all s ++ b'"' ∷ u ≡ escape_all t ++ b'"' ∷ v
    → (s ≡ t) × (u ≡ v)
unfolding escape_all unescape
body_injective [] [] u v e = ground arith
body_injective [] (d ∷ t) u v e = cc (e, step d t (b'"' ∷ v))
body_injective (c ∷ s) [] u v e = cc (e, step c s (b'"' ∷ u))
body_injective (c ∷ s) (d ∷ t) u v e =
    let (here, behind) =
      read_injective _ _ _ _ (sym (step c s (b'"' ∷ u)) ∙ ap unescape e ∙ step d t (b'"' ∷ v)) in
    let (same, rest) = body_injective s t u v behind in (cc (here, same), rest)

string_injective : (s t u v : Text) → json_string s ++ u ≡ json_string t ++ v → (s ≡ t) × (u ≡ v)
unfolding json_string
string_injective s t u v e = body_injective s t u v (simp append_assoc at (ap tail e))

pair_injective : (p q : Pair) (u v : Text) → json_pair p ++ u ≡ json_pair q ++ v → (p ≡ q) × (u ≡ v)
unfolding json_pair
pair_injective (a, b) (c, d) u v e =
    let (same_a, e₁) = string_injective a c _ _ (simp append_assoc at (ap tail e)) in
    let (same_b, e₂) = string_injective b d _ _ (ap tail e₁) in (ground arith, ground arith)

more_injective :
    (ps qs : List Pair) (u v : Text) → json_more ps ++ u ≡ json_more qs ++ v → (ps ≡ qs) × (u ≡ v)
unfolding json_more
more_injective [] [] u v e = ground arith
more_injective [] (q ∷ qs) u v e = ground arith
more_injective (p ∷ ps) [] u v e = ground arith
more_injective (p ∷ ps) (q ∷ qs) u v e =
    let (same, e₁) = pair_injective p q _ _ (simp append_assoc at (ap tail e)) in
    let (rest, last) = more_injective ps qs u v e₁ in (ground arith, last)

first_injective :
    (p q : Pair) (ps qs : List Pair) (u v : Text)
    → json_pairs (p ∷ ps) ++ u ≡ json_pairs (q ∷ qs) ++ v
    → (p ∷ ps ≡ q ∷ qs) × (u ≡ v)
unfolding json_pairs
first_injective p q ps qs u v e =
    let (same, e₁) = pair_injective p q _ _ (simp append_assoc at (ap tail e)) in
    let (rest, last) = more_injective ps qs u v e₁ in (ground arith, last)

pairs_injective :
    (ps qs : List Pair) (u v : Text) → json_pairs ps ++ u ≡ json_pairs qs ++ v → (ps ≡ qs) × (u ≡ v)
unfolding json_pairs json_pair
pairs_injective [] [] u v e = ground arith
pairs_injective [] (q ∷ qs) u v e = ground arith
pairs_injective (p ∷ ps) [] u v e = ground arith
pairs_injective (p ∷ ps) (q ∷ qs) u v e = first_injective p q ps qs u v e

-- The canonical text determines the source, the key and the sorted entities.
pub canonical_injective :
    (s t k j : Text) (ps qs : List Pair)
    → canonical s k ps ≡ canonical t j qs
    → (s ≡ t) × (k ≡ j) × (sorted pair_lt ps ≡ sorted pair_lt qs)
unfolding canonical
canonical_injective s t k j ps qs e =
    let (same_source, e₁) = string_injective s t _ _ (ap tail e) in
    let (same_key, e₂) = string_injective k j _ _ (ap tail e₁) in
    let (same_entities, _) =
      pairs_injective (sorted pair_lt ps) (sorted pair_lt qs) _ _ (ap tail e₂) in
    (same_source, same_key, same_entities)
