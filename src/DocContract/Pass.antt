-- ===== src/DocContract/Pass.antt =====
-- scripts/check_doc_contract.py: what a pass of the check means.
use smokejumper.Prelude.{
  ◌%◌, ◌==◌, ◌≡◌, ◌↔◌, refl, ap, Bool-cases, ◌∙◌, Bool, true, false, not, Option, none, some, inl,
  inr, List, [], ◌∷◌, ◌++◌, Text, lit, All, All-imp_select, All-select-imp, ok, >>=-eq-ok, arith,
}
use smokejumper.Prelude.Sorted.{sorted, sorted-All, sorted-All_of}
use smokejumper.DocContract.Links.{count, find_links, link_target}
use smokejumper.DocContract.{
  PathParts, Repository, Outcome, is_ours, path_lt, occurs, error_unless, readme_forbidden_tokens,
  required_spec_headings, token_errors, status_errors, heading_errors, fence_errors, is_reachable,
  link_errors, document_errors, documents, errors_of_texts, validate, outcome, main,
}

module _ (repo : Repository) where
  -- The link leads somewhere, or to another site or place.
  abbrev Leads : PathParts → Text → Type 0
  Leads path raw_target =
      (target : Text) × (link_target raw_target ≡ ok target)
      × (is_reachable repo path target ≡ true)

  -- The document can be read, closes each code fence, and all of its links lead somewhere.
  abbrev IsClean : PathParts → Type 0
  IsClean path =
      (text : Text) × (repo.read_text path ≡ ok text)
      × (count (lit "```") text % 2 ≡ 0)
      × All (Leads path) (find_links text)

  -- Both documents are there, the README states nothing normative and no status, the specification
  -- has its headings, and each document outside the excluded directories is clean.
  pub record IsUpheld : Type 0 where
    pub has_readme : repo.is_file (lit "README.md") ≡ true
    pub has_spec : repo.is_file (lit "SPEC.md") ≡ true
    pub readme : Text
    pub spec : Text
    pub readme_reads : repo.read_text (lit "README.md" ∷ []) ≡ ok readme
    pub spec_reads : repo.read_text (lit "SPEC.md" ∷ []) ≡ ok spec
    pub no_token : All (λ token. occurs token readme ≡ false) readme_forbidden_tokens
    pub no_status : repo.status_claim readme ≡ none
    pub has_headings : All (λ heading. occurs heading spec ≡ true) required_spec_headings
    pub clean : All (λ path. is_ours path ≡ true → IsClean path) repo.markdown

append-eq-nil : (xs ys : List Text) → (xs ++ ys ≡ []) ↔ ((xs ≡ []) × (ys ≡ []))
append-eq-nil [] ys = (λ e. (refl, e), λ h. h.1)
append-eq-nil (x ∷ xs) ys = (λ e. cc e, λ h. cc h.0)

error_unless-eq-nil :
    (test : Bool) (message : Text) → (error_unless test message ≡ []) ↔ (test ≡ true)
error_unless-eq-nil true message = (λ _. refl, λ _. refl)
error_unless-eq-nil false message = (λ e. cc e, λ e. cc e)

returned-eq : (xs ys : List Text) → ok xs ≡ ok ys → xs ≡ ys
returned-eq xs ys e = cc e

token_errors-eq-nil :
    (readme : Text) (tokens : List Text)
    → (token_errors readme tokens ≡ []) ↔ All (λ token. occurs token readme ≡ false) tokens
unfolding token_errors
token_errors-eq-nil readme [] = (λ e. tt, λ h. refl)
token_errors-eq-nil readme (token ∷ tokens) = (
  λ e.
      let (here, rest) = (append-eq-nil _ (token_errors readme tokens)).0 e in
      let absent = (error_unless-eq-nil (not (occurs token readme)) _).0 here in
      (ground arith, (token_errors-eq-nil readme tokens).0 rest),
  λ (absent, rest). (append-eq-nil _ (token_errors readme tokens)).1 (
    (error_unless-eq-nil (not (occurs token readme)) _).1 (ground arith),
    (token_errors-eq-nil readme tokens).1 rest,
  ),
)

heading_errors-eq-nil :
    (spec : Text) (headings : List Text)
    → (heading_errors spec headings ≡ []) ↔ All (λ heading. occurs heading spec ≡ true) headings
unfolding heading_errors
heading_errors-eq-nil spec [] = (λ e. tt, λ h. refl)
heading_errors-eq-nil spec (heading ∷ headings) = (
  λ e.
      let (here, rest) = (append-eq-nil _ (heading_errors spec headings)).0 e in
      (
        (error_unless-eq-nil (occurs heading spec) _).0 here,
        (heading_errors-eq-nil spec headings).0 rest,
      ),
  λ (found, rest). (append-eq-nil _ (heading_errors spec headings)).1 (
    (error_unless-eq-nil (occurs heading spec) _).1 found,
    (heading_errors-eq-nil spec headings).1 rest,
  ),
)

status_errors-eq-nil : (o : Option Text) → (status_errors o ≡ []) ↔ (o ≡ none)
status_errors-eq-nil none = (λ _. refl, λ _. refl)
status_errors-eq-nil (some claim) = (λ e. cc e, λ e. cc e)

fence_errors-eq-nil :
    (path : PathParts) (text : Text)
    → (fence_errors path text ≡ []) ↔ (count (lit "```") text % 2 ≡ 0)
fence_errors-eq-nil path text = elim (Bool-cases (count (lit "```") text % 2 == 0)) [
  | inl even ↦ rw even (λ _. ground arith, λ _. refl)
  | inr odd ↦ rw odd (λ e. cc e, λ even. ground arith)
]

module _ (repo : Repository) where
  link_errors-eq-nil :
      (path : PathParts) (targets : List Text)
      → (link_errors repo path targets ≡ ok []) ↔ All (Leads repo path) targets
  unfolding link_errors
  link_errors-eq-nil path [] = (λ e. tt, λ h. refl)
  link_errors-eq-nil path (raw ∷ raws) = (
    λ e.
        let (target, found, e') = >>=-eq-ok (link_target raw) _ e in
        let (errors, listed, e'') = >>=-eq-ok (link_errors repo path raws) _ e' in
        let (here, rest) = (append-eq-nil _ errors).0 (returned-eq _ [] e'') in
        (
          (target, found, (error_unless-eq-nil (is_reachable repo path target) _).0 here),
          (link_errors-eq-nil path raws).0 (listed ∙ ap ok rest),
        ),
    λ ((target, found, reached), rest).
        rw (found, (link_errors-eq-nil path raws).1 rest, reached) refl,
  )

  document_errors-eq-nil :
      (paths : List PathParts) → (document_errors repo paths ≡ ok []) ↔ All (IsClean repo) paths
  unfolding document_errors
  document_errors-eq-nil [] = (λ e. tt, λ h. refl)
  document_errors-eq-nil (path ∷ paths) = (
    λ e.
        let (text, read, e1) = >>=-eq-ok (repo.read_text path) _ e in
        let (links, listed, e2) = >>=-eq-ok (link_errors repo path (find_links text)) _ e1 in
        let (errors, others, e3) = >>=-eq-ok (document_errors repo paths) _ e2 in
        let (fences, more) =
          (append-eq-nil (fence_errors path text) (links ++ errors)).0
            (returned-eq (fence_errors path text ++ (links ++ errors)) [] e3) in
        let (sound, rest) = (append-eq-nil links errors).0 more in
        (
          (
            text,
            read,
            (fence_errors-eq-nil path text).0 fences,
            (link_errors-eq-nil path (find_links text)).0 (listed ∙ ap ok sound),
          ),
          (document_errors-eq-nil paths).0 (others ∙ ap ok rest),
        ),
    λ ((text, read, even, leads), rest).
        rw
          (
            read,
            (link_errors-eq-nil path (find_links text)).1 leads,
            (document_errors-eq-nil paths).1 rest,
            (fence_errors-eq-nil path text).1 even,
          )
          refl,
  )

  documents-IsClean :
      All (IsClean repo) (documents repo)
      ↔ All (λ path. is_ours path ≡ true → IsClean repo path) repo.markdown
  documents-IsClean = (
    λ clean.
        sorted-All_of path_lt (λ path. is_ours path ≡ true → IsClean repo path) repo.markdown
          (All-select-imp is_ours (IsClean repo) (sorted path_lt repo.markdown) clean),
    λ clean.
        All-imp_select is_ours (IsClean repo) (sorted path_lt repo.markdown) (
          sorted-All path_lt (λ path. is_ours path ≡ true → IsClean repo path) repo.markdown clean),
  )

  errors_of_texts-eq-nil :
      repo.is_file (lit "README.md") ≡ true
      → repo.is_file (lit "SPEC.md") ≡ true
      → errors_of_texts repo ≡ ok []
      → IsUpheld repo
  unfolding errors_of_texts
  errors_of_texts-eq-nil has_readme has_spec e =
      let (readme, readme_reads, e1) = >>=-eq-ok (repo.read_text (lit "README.md" ∷ [])) _ e in
      let (spec, spec_reads, e2) = >>=-eq-ok (repo.read_text (lit "SPEC.md" ∷ [])) _ e1 in
      let (errors, listed, e3) = >>=-eq-ok (document_errors repo (documents repo)) _ e2 in
      let tokens = token_errors readme readme_forbidden_tokens in
      let claims = status_errors (repo.status_claim readme) in
      let headings = heading_errors spec required_spec_headings in
      let (no_tokens, rest1) =
        (append-eq-nil tokens (claims ++ (headings ++ errors))).0
          (returned-eq (tokens ++ (claims ++ (headings ++ errors))) [] e3) in
      let (no_claims, rest2) = (append-eq-nil claims (headings ++ errors)).0 rest1 in
      let (no_headings, none_left) = (append-eq-nil headings errors).0 rest2 in
      record {
        has_readme = has_readme;
        has_spec = has_spec;
        readme = readme;
        spec = spec;
        readme_reads = readme_reads;
        spec_reads = spec_reads;
        no_token = (token_errors-eq-nil readme readme_forbidden_tokens).0 no_tokens;
        no_status = (status_errors-eq-nil (repo.status_claim readme)).0 no_claims;
        has_headings = (heading_errors-eq-nil spec required_spec_headings).0 no_headings;
        clean =
            documents-IsClean.0
              ((document_errors-eq-nil (documents repo)).0 (listed ∙ ap ok none_left));
      }

  IsUpheld-errors_of_texts : IsUpheld repo → errors_of_texts repo ≡ ok []
  unfolding errors_of_texts
  IsUpheld-errors_of_texts upheld =
      rw
        (
          upheld.readme_reads,
          upheld.spec_reads,
          (document_errors-eq-nil (documents repo)).1 (documents-IsClean.1 upheld.clean),
          (token_errors-eq-nil upheld.readme readme_forbidden_tokens).1 upheld.no_token,
          upheld.no_status,
          (heading_errors-eq-nil upheld.spec required_spec_headings).1 upheld.has_headings,
        )
        refl

  validate-eq-nil : (validate repo ≡ ok []) ↔ IsUpheld repo
  unfolding validate
  validate-eq-nil = (
    λ e. elim (Bool-cases (repo.is_file (lit "README.md"))) [
      | inr absent ↦ cc (rw (validate, absent) at e)
      | inl has_readme ↦ elim (Bool-cases (repo.is_file (lit "SPEC.md"))) [
        | inr absent ↦ cc (rw (validate, has_readme, absent) at e)
        | inl has_spec ↦
            errors_of_texts-eq-nil has_readme has_spec (rw (validate, has_readme, has_spec) at e)
      ]
    ],
    λ upheld. rw (validate, upheld.has_readme, upheld.has_spec) (IsUpheld-errors_of_texts upheld),
  )

  returns_none : (e : List Text) → (o : Outcome) → ok (outcome e) ≡ ok o → o.code ≡ 0 → e ≡ []
  returns_none [] o same passes = refl
  returns_none (x ∷ xs) o same passes =
      let one : outcome (x ∷ xs) ≡ o = cc in cc (ap (λ (r : Outcome). r.code) one ∙ passes)

  -- The check returns with exit code 0 exactly where README.md and SPEC.md are there and can be
  -- read, the README holds no forbidden token and no claim of status, the specification holds each
  -- required heading, and each Markdown document that is not below an excluded directory can be
  -- read, closes its code fences, and has only links that lead somewhere.
  pub main_passes_iff : ((o : Outcome) × (main repo ≡ ok o) × (o.code ≡ 0)) ↔ IsUpheld repo
  unfolding main
  main_passes_iff = (
    λ (o, returns, passes).
        let (errors, validated, same) = >>=-eq-ok (validate repo) (λ e. ok (outcome e)) returns in
        validate-eq-nil.0 (validated ∙ ap ok (returns_none errors o same passes)),
    λ upheld. (outcome [], rw (validate-eq-nil.1 upheld) refl, refl),
  )
