-- ===== src/Receiver/Verification.antt =====
-- src/smokejumper/receiver/verification.py: who may deliver, one scheme for each source.
pub mod Schemes
use smokejumper.Prelude.{
  ℕ, Bool, true, false, ◌&&◌, not, Option, none, some, List, [], ◌∷◌, ◌++◌, map, Text, lit, ltb,
  all, any, text_eq, is_empty, lower, strip, split, starts_with, remove_prefix, Result, ok, err,
  value_error, ◌>>=◌, if◌then◌else◌,
}

-- `request.headers.items()`
abbrev pub Headers : Type 0
Headers = List (Text × Text)

abbrev pub datadog_token_header : Text
datadog_token_header = lit "X-Smokejumper-Token"

abbrev pub generic_signature_header : Text
generic_signature_header = lit "X-Smokejumper-Signature"

abbrev pub pagerduty_signature_header : Text
pagerduty_signature_header = lit "X-PagerDuty-Signature"

-- `_header`
unfoldable pub header : Headers → Text → Option Text
unfolding lower
header [] name = none
header ((key, value) ∷ headers) name =
    let rest = header headers name in if text_eq (lower key) (lower name) then some value else rest

unfoldable pub is_ascii : Text → Bool
is_ascii s = all (λ c. ltb c 128) s

-- `hmac.compare_digest` of two `str`: a character that is not ASCII raises `TypeError`.
unfoldable pub compare_digest : Text → Text → Result Bool
compare_digest s t = if is_ascii s && is_ascii t then ok (text_eq s t) else err value_error

unfoldable pub verify_shared_token : Headers → Text → Result Bool
unfolding header compare_digest
verify_shared_token headers secret =
    if is_empty secret then ok false else elim (header headers datadog_token_header) [
      | none ↦ ok false
      | some presented ↦ compare_digest presented secret
    ]

-- `any(…)` over the parts of the header, in order: the first that passes, or raises, decides.
unfoldable pub any_digest : Text → List Text → Result Bool
unfolding compare_digest
any_digest expected [] = ok false
any_digest expected (part ∷ parts) =
    let rest = any_digest expected parts in
    if starts_with (lit "v1=") (strip part)
    then compare_digest (remove_prefix (lit "v1=") (strip part)) expected
      >>= (λ same. if same then ok true else rest)
    else rest

-- `hmac.new(secret.encode("utf-8"), body, hashlib.sha256).hexdigest()` is a parameter.
module _ (hmac_sha256 : Text → Text → Text) where
  unfoldable pub verify_hmac_signature : Text → Headers → Text → Result Bool
  unfolding header compare_digest
  verify_hmac_signature body headers secret =
      if is_empty secret then ok false else elim (header headers generic_signature_header) [
        | none ↦ ok false
        | some presented ↦
            if starts_with (lit "sha256=") presented
            then compare_digest (remove_prefix (lit "sha256=") presented) (hmac_sha256 secret body)
            else ok false
      ]

  unfoldable pub verify_pagerduty_signature : Text → Headers → Text → Result Bool
  unfolding header any_digest
  verify_pagerduty_signature body headers secret =
      if is_empty secret then ok false else elim (header headers pagerduty_signature_header) [
        | none ↦ ok false
        | some presented ↦ any_digest (hmac_sha256 secret body) (split b',' presented)
      ]

-- `ip_address`, `none` where it raises, and `peer in network` are parameters.
module _ {Address Network : Type 0} (ip_address : Text → Option Address)
    (contains : Network → Address → Bool) where
  unfoldable pub verify_source_ip : Option Text → List Network → Bool
  verify_source_ip none allowlist = false
  verify_source_ip (some host) allowlist = if is_empty host then false else elim (ip_address host) [
    | none ↦ false
    | some peer ↦ any (λ network. contains network peer) allowlist
  ]
