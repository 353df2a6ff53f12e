-- ===== src/DocContract.antt =====
-- scripts/check_doc_contract.py: the check that SPEC.md is the only normative document.
pub mod Links
pub mod Pass
use smokejumper.Prelude.{
  ℕ, ◌+◌, ◌-◌, ◌%◌, ◌==◌, ◌||◌, ◌&&◌, Bool, true, false, not, Option, none, some, List, [], ◌∷◌,
  ◌++◌, map, Text, lit, length, select, any, text_lt, text_eq, one_of, is_empty, starts_with, join,
  Result, ok, err, ◌>>=◌, if◌then◌else◌,
}
use smokejumper.Prelude.Sorted.{sorted}
use smokejumper.Contracts.Json.{decimal}
use smokejumper.DocContract.Links.{count, find_links, link_target, path_part}

abbrev pub required_spec_headings : List Text
required_spec_headings =
    lit "## 0. Documentation contract"
    ∷ lit "## 11. Build prerequisites and operator inputs"
    ∷ lit "## 12. Executable implementation plan"
    ∷ []

abbrev pub readme_forbidden_tokens : List Text
readme_forbidden_tokens =
    lit "```"
    ∷ lit "docker compose"
    ∷ lit "SMOKEJUMPER__"
    ∷ lit "SLACK_BOT_TOKEN"
    ∷ lit "SLACK_APP_TOKEN"
    ∷ lit "LINEAR_API_KEY"
    ∷ lit "localhost:"
    ∷ []

abbrev pub excluded_dirs : List Text
excluded_dirs =
    lit ".git"
    ∷ lit ".venv"
    ∷ lit "venv"
    ∷ lit ".artifacts"
    ∷ lit "node_modules"
    ∷ lit "build"
    ∷ lit "dist"
    ∷ lit ".pytest_cache"
    ∷ lit ".ruff_cache"
    ∷ lit ".uv-cache"
    ∷ lit ".mypy_cache"
    ∷ []

-- A path below the root, as its parts.
abbrev pub PathParts : Type 0
PathParts = List Text

-- What the file system holds below the root, and what `README_STATUS_PATTERN` finds in a text.
pub record Repository : Type 0 where
  pub is_file : Text → Bool
  pub read_text : PathParts → Result Text
  pub markdown : List PathParts
  pub exists : PathParts → Text → Bool
  pub status_claim : Text → Option Text

-- `_is_ours`
unfoldable pub is_ours : PathParts → Bool
is_ours path = not (any (λ part. one_of part excluded_dirs) path)

-- The order of `Path`: part by part.
unfoldable pub path_lt : PathParts → PathParts → Bool
path_lt [] [] = false
path_lt [] (y ∷ ys) = true
path_lt (x ∷ xs) [] = false
path_lt (x ∷ xs) (y ∷ ys) = text_lt x y || text_eq x y && path_lt xs ys

-- `needle in text`
unfoldable pub occurs : Text → Text → Bool
unfolding starts_with
occurs needle [] = is_empty needle
occurs needle (c ∷ s) = starts_with needle (c ∷ s) || occurs needle s

-- `repr` of a text without quotes and without characters that it escapes.
abbrev quoted : Text → Text
quoted s = lit "'" ++ s ++ lit "'"

abbrev shown : PathParts → Text
shown path = join (lit "/") path

-- `if not test: errors.append(message)`
abbrev pub error_unless : Bool → Text → List Text
error_unless true message = []
error_unless false message = message ∷ []

abbrev pub missing_files : Repository → List Text
missing_files repo =
    error_unless (repo.is_file (lit "README.md")) (lit "README.md is missing")
    ++ error_unless (repo.is_file (lit "SPEC.md")) (lit "SPEC.md is missing")

unfoldable pub token_errors : Text → List Text → List Text
token_errors readme [] = []
token_errors readme (token ∷ tokens) =
    error_unless (not (occurs token readme)) (
      lit "README.md contains forbidden normative token "
      ++ quoted token
      ++ lit "; link to SPEC.md instead")
    ++ token_errors readme tokens

abbrev pub status_errors : Option Text → List Text
status_errors none = []
status_errors (some claim) =
    (lit "README.md contains implementation-status language "
      ++ quoted claim
      ++ lit "; link to SPEC.md §12 instead")
    ∷ []

unfoldable pub heading_errors : Text → List Text → List Text
heading_errors spec [] = []
heading_errors spec (heading ∷ headings) =
    error_unless (occurs heading spec) (lit "SPEC.md is missing required heading: " ++ heading)
    ++ heading_errors spec headings

abbrev pub fence_errors : PathParts → Text → List Text
fence_errors path text =
    error_unless (count (lit "```") text % 2 == 0) (shown path ++ lit " has unbalanced code fences")

-- Another site, a place in the same document, or nothing at all.
unfoldable pub is_elsewhere : Text → Bool
is_elsewhere target =
    is_empty target
    || starts_with (lit "http://") target
    || starts_with (lit "https://") target
    || starts_with (lit "mailto:") target
    || starts_with (lit "#") target

module _ (repo : Repository) where
  unfoldable pub is_reachable : PathParts → Text → Bool
  is_reachable path target =
      is_elsewhere target || is_empty (path_part target) || repo.exists path (path_part target)

  -- The loop over the links of a document: a link to a blank target raises.
  unfoldable pub link_errors : PathParts → List Text → Result (List Text)
  link_errors path [] = ok []
  link_errors path (raw_target ∷ raw_targets) = do
    target ← link_target raw_target
    errors ← link_errors path raw_targets
    ok (
        error_unless (is_reachable path target)
          (shown path ++ lit " has missing local link target: " ++ target)
        ++ errors)

  unfoldable pub document_errors : List PathParts → Result (List Text)
  document_errors [] = ok []
  document_errors (path ∷ paths) = do
    text ← repo.read_text path
    links ← link_errors path (find_links text)
    errors ← document_errors paths
    ok (fence_errors path text ++ (links ++ errors))

  abbrev pub documents : List PathParts
  documents = select is_ours (sorted path_lt repo.markdown)

  unfoldable pub errors_of_texts : Result (List Text)
  errors_of_texts = do
    readme ← repo.read_text (lit "README.md" ∷ [])
    spec ← repo.read_text (lit "SPEC.md" ∷ [])
    errors ← document_errors documents
    ok (
        token_errors readme readme_forbidden_tokens
        ++ (status_errors (repo.status_claim readme)
            ++ (heading_errors spec required_spec_headings ++ errors)))

  unfoldable pub validate : Result (List Text)
  validate = elim (missing_files repo) [
    | [] ↦ errors_of_texts
    | error ∷ errors ↦ ok (error ∷ errors)
  ]

-- The exit code, and the lines that are printed.
pub record Outcome : Type 0 where
  pub code : ℕ
  pub printed : List Text

abbrev pub outcome : List Text → Outcome
outcome [] = record { code = 0; printed = lit "documentation contract: PASS" ∷ [] }
outcome (error ∷ errors) = record {
  code = 1;
  printed =
      map (λ e. lit "ERROR: " ++ e) (error ∷ errors)
      ++ (lit "documentation contract: FAIL ("
          ++ decimal (length (error ∷ errors))
          ++ lit " error(s))")
        ∷ [];
}

-- `main` of a checkout.
unfoldable pub main : Repository → Result Outcome
main repo = do errors ← validate repo; ok (outcome errors)
