-- ===== src/Examples/Documents.antt =====
-- The check of the documents at a small checkout.
use smokejumper.Prelude.{
  ◌≡◌, ◌↔◌, refl, ◌||◌, none, [], ◌∷◌, lit, text_eq, text_lt, join, partition, strip, lstrip,
  is_space, starts_with, after_prefix, ok, err, other, if◌then◌else◌,
}
use smokejumper.Prelude.Sorted.{sorted, place}
use smokejumper.DocContract.{
  Repository, Outcome, required_spec_headings, validate, main, errors_of_texts, document_errors,
  path_lt, is_ours, link_errors, occurs, token_errors, heading_errors, is_reachable, is_elsewhere,
}
use smokejumper.DocContract.Links.{
  find_links, link_target, links_from, count, count_from, first_word, link_at, lstrip_angles,
  path_part, strip_angles,
}
use smokejumper.DocContract.Pass.{IsUpheld, main_passes_iff}

abbrev tiny : Repository
tiny = record {
  is_file = λ name. text_eq name (lit "README.md") || text_eq name (lit "SPEC.md");
  read_text = λ path. ok (
      if text_eq (join (lit "/") path) (lit "SPEC.md")
      then join (lit "\n") required_spec_headings
      else lit "read [the spec](SPEC.md#12 \"plan\")");
  markdown =
      (lit "SPEC.md" ∷ []) ∷ (lit "node_modules" ∷ lit "a.md" ∷ []) ∷ (lit "README.md" ∷ []) ∷ [];
  exists = λ path target. text_eq target (lit "SPEC.md");
  status_claim = λ readme. none;
}

main_passes_iff_example : ((o : Outcome) × (main tiny ≡ ok o) × (o.code ≡ 0)) ↔ IsUpheld tiny
main_passes_iff_example = main_passes_iff tiny

tiny_validates : validate tiny ≡ ok []
unfolding validate text_eq errors_of_texts document_errors sorted path_lt text_lt is_ours
    link_errors find_links links_from join partition link_target occurs count count_from first_word
    link_at lstrip_angles path_part strip_angles strip lstrip is_space starts_with after_prefix
    token_errors heading_errors is_reachable is_elsewhere place
tiny_validates = refl

links_found :
    find_links (lit "![a](b) [c] (d) [e](f#g \"h\")[i]()") ≡ lit "b" ∷ lit "f#g \"h\"" ∷ []
unfolding find_links links_from partition
links_found = refl

-- A link to a blank target ends the check with an exception.
blank_target_raises : link_target (lit " ") ≡ err other
unfolding link_target strip
blank_target_raises = refl
