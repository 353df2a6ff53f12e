-- ===== src/DocContract/Links.antt =====
-- scripts/check_doc_contract.py: the links of a Markdown text, and where they lead.
use smokejumper.Prelude.{
  ℕ, zero, suc, ◌+◌, ◌-◌, ◌==◌, ◌||◌, Option, none, some, List, [], ◌∷◌, Text, length, is_space,
  strip, starts_with, partition, Result, ok, err, other, if◌then◌else◌,
}
use mathlib.Core.List.{reverse}

-- `text.count(pattern)` of a non-empty pattern: occurrences that overlap none before. Of the text in
-- front, `skip` characters belong to the last one.
unfoldable pub count_from : ℕ → Text → Text → ℕ
unfolding starts_with
count_from skip pattern [] = 0
count_from (suc skip) pattern (c ∷ s) = count_from skip pattern s
count_from zero pattern (c ∷ s) =
    let found = starts_with pattern (c ∷ s) in
    (if found then 1 else 0) + count_from (if found then length pattern - 1 else 0) pattern s

unfoldable pub count : Text → Text → ℕ
count pattern text = count_from 0 pattern text

-- `](target)` behind the label of a link: the target, and how many characters it takes.
abbrev target_behind : Text → Option (Text × ℕ)
target_behind [] = none
target_behind (c ∷ s) = elim (partition b')' s) [
  | none ↦ none
  | some ([], _) ↦ none
  | some (t ∷ target, _) ↦ if c == b'(' then some (t ∷ target, length target + 3) else none
]

-- What `MARKDOWN_LINK` matches from an opening bracket on: the target, and how many characters follow
-- the bracket. An exclamation mark before the bracket changes neither.
unfoldable pub link_at : Text → Option (Text × ℕ)
link_at [] = none
link_at (c ∷ s) = elim (partition b']' s) [
  | none ↦ none
  | some (label, rest) ↦ elim (target_behind rest) [
    | none ↦ none
    | some (target, taken) ↦ if c == b'[' then some (target, length label + 1 + taken) else none
  ]
]

abbrev taken_by : Option (Text × ℕ) → ℕ
taken_by none = 0
taken_by (some (target, taken)) = taken

abbrev with_target : Option (Text × ℕ) → List Text → List Text
with_target none targets = targets
with_target (some (target, taken)) targets = target ∷ targets

-- `MARKDOWN_LINK.findall(text)`
unfoldable pub links_from : ℕ → Text → List Text
unfolding link_at
links_from skip [] = []
links_from (suc skip) (c ∷ s) = links_from skip s
links_from zero (c ∷ s) =
    let found = link_at (c ∷ s) in with_target found (links_from (taken_by found) s)

unfoldable pub find_links : Text → List Text
find_links text = links_from 0 text

unfoldable pub first_word : Text → Text
unfolding is_space
first_word [] = []
first_word (c ∷ s) = if is_space c then [] else c ∷ first_word s

unfoldable pub lstrip_angles : Text → Text
lstrip_angles [] = []
lstrip_angles (c ∷ s) = let rest = lstrip_angles s in if c == b'<' || c == b'>' then rest else c ∷ s

-- `.strip("<>")`
unfoldable pub strip_angles : Text → Text
unfolding lstrip_angles
strip_angles s = reverse (lstrip_angles (reverse (lstrip_angles s)))

abbrev word_of : Text → Result Text
word_of [] = err other
word_of (c ∷ s) = ok (strip_angles (first_word (c ∷ s)))

-- `raw_target.strip().split()[0].strip("<>")`; a blank target has no first word.
unfoldable pub link_target : Text → Result Text
link_target raw_target = word_of (strip raw_target)

-- `target.split("#", 1)[0]`
unfoldable pub path_part : Text → Text
unfolding partition
path_part target = elim (partition b'#' target) [ none ↦ target | some (before, _) ↦ before ]
