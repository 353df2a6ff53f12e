-- ===== src/Receiver/Verification/Schemes.antt =====
-- What each scheme of receiver/verification.py accepts.
use mathlib.Core.List.{Memᴰ}
use smokejumper.Prelude.{
  ◌≡◌, ◌≢◌, ◌↔◌, ◌⊎◌, inl, inr, refl, ap, ◌∙◌, true, false, ◌&&◌, Bool-cases, Option-cases, none,
  some, Option, Bool, any, List, [], ◌∷◌, ◌++◌, Text, lit, text_eq, text_eq_iff, text_eq_refl,
  strip, split, starts_with, remove_prefix, after_prefix, ok, err, value_error, arith, ◌==◌,
}
use smokejumper.Receiver.Verification.{
  Headers, header, datadog_token_header, generic_signature_header, pagerduty_signature_header,
  is_ascii, compare_digest, verify_shared_token, verify_hmac_signature, any_digest,
  verify_pagerduty_signature, verify_source_ip,
}

compare_digest-true : (s t : Text) → compare_digest s t ≡ ok true → s ≡ t
unfolding compare_digest
compare_digest-true s t h = elim (Bool-cases (is_ascii s && is_ascii t)) [
  | inl plain ↦
      let agree : text_eq s t ≡ true = cc (rw (plain, compare_digest) at h) in
      (text_eq_iff s t).0 agree
  | inr wide ↦ cc (rw (wide, compare_digest) at h)
]

compare_digest-cases :
    (s t : Text)
    → (s ≡ t) ⊎ ((compare_digest s t ≡ ok false) ⊎ (compare_digest s t ≡ err value_error))
unfolding compare_digest
compare_digest-cases s t = elim (Bool-cases (text_eq s t)) [
  | inl same ↦ inl ((text_eq_iff s t).0 same)
  | inr differ ↦ elim (Bool-cases (is_ascii s && is_ascii t)) [
    | inl plain ↦ inr (inl (rw (plain, differ) refl))
    | inr wide ↦ inr (inr (rw wide refl))
  ]
]

compare_digest_refl : (s : Text) → is_ascii s ≡ true → compare_digest s s ≡ ok true
unfolding compare_digest
compare_digest_refl s plain = rw (plain, text_eq_refl s) refl

after_prefix-eq-some : (p s : Text) {rest : Text} → after_prefix p s ≡ some rest → s ≡ p ++ rest
unfolding after_prefix
after_prefix-eq-some [] s h = cc
after_prefix-eq-some (c ∷ p) [] h = cc
after_prefix-eq-some (c ∷ p) (d ∷ s) {rest} h = elim (Bool-cases (c == d)) [
  | inl same ↦
      let behind : s ≡ p ++ rest = after_prefix-eq-some p s (ground arith) in
      let head : d ≡ c = ground arith in cc
  | inr differ ↦ ground arith
]

after_prefix-append : (p s : Text) → after_prefix p (p ++ s) ≡ some s
unfolding after_prefix
after_prefix-append [] s = refl
after_prefix-append (c ∷ p) s = ground (arith, after_prefix-append p s)

remove_prefix-inverse : (p s : Text) → starts_with p s ≡ true → s ≡ p ++ remove_prefix p s
unfolding starts_with remove_prefix
remove_prefix-inverse p s h = elim (Option-cases (after_prefix p s)) [
  | inl absent ↦ cc (rw absent at h)
  | inr (rest, found) ↦
      after_prefix-eq-some p s found ∙ ap (λ r. p ++ r) (rw (found, remove_prefix) refl)
]

remove_prefix-append : (p s : Text) → remove_prefix p (p ++ s) ≡ s
unfolding remove_prefix
remove_prefix-append p s = rw (after_prefix-append p s, remove_prefix) refl

starts_with-append : (p s : Text) → starts_with p (p ++ s) ≡ true
unfolding starts_with
starts_with-append p s = rw (after_prefix-append p s, starts_with) refl

-- A token that passes is the configured secret.
pub verify_shared_token_sound :
    (headers : Headers) (secret : Text)
    → verify_shared_token headers secret ≡ ok true
    → (secret ≢ []) × (header headers datadog_token_header ≡ some secret)
unfolding verify_shared_token
verify_shared_token_sound headers [] h = cc
verify_shared_token_sound headers (c ∷ s) h =
    elim (Option-cases (header headers datadog_token_header)) [
      | inl absent ↦ cc (rw absent at h)
      | inr (presented, found) ↦
          (λ e. cc, found ∙ ap some (compare_digest-true presented (c ∷ s) (rw found at h)))
    ]

-- Where the secret is plain ASCII, a shared token passes exactly when a secret is configured and
-- the first header of that name, in any case of letters, carries it.
pub verify_shared_token_iff :
    (headers : Headers) (secret : Text)
    → is_ascii secret ≡ true
    → (verify_shared_token headers secret ≡ ok true)
      ↔ ((secret ≢ []) × (header headers datadog_token_header ≡ some secret))
unfolding verify_shared_token
verify_shared_token_iff headers [] plain = (λ h. cc, λ h. absurd (h.0 refl))
verify_shared_token_iff headers (c ∷ s) plain =
    elim (Option-cases (header headers datadog_token_header)) [
      | inl absent ↦ rw absent (λ h. cc, λ h. cc)
      | inr (presented, found) ↦ rw found (
        λ h. (λ e. cc, ap some (compare_digest-true presented (c ∷ s) h)),
        λ (_, same).
            let carried : presented ≡ c ∷ s = ground arith in
            rw carried (compare_digest_refl (c ∷ s) plain),
      )
    ]

module _ (hmac_sha256 : Text → Text → Text)
    (hexdigest-IsAscii : (secret body : Text) → is_ascii (hmac_sha256 secret body) ≡ true) where
  -- Where a hexadecimal digest is plain ASCII, a signature passes exactly when a secret is
  -- configured and the first signature header is `sha256=` and the HMAC of the body under it.
  pub verify_hmac_signature_iff :
      (body : Text) (headers : Headers) (secret : Text)
      → (verify_hmac_signature hmac_sha256 body headers secret ≡ ok true) ↔ (
          (secret ≢ [])
          × (header headers generic_signature_header
              ≡ some (lit "sha256=" ++ hmac_sha256 secret body)))
  unfolding verify_hmac_signature
  verify_hmac_signature_iff body headers [] = (λ h. cc, λ h. absurd (h.0 refl))
  verify_hmac_signature_iff body headers (c ∷ s) =
      elim (Option-cases (header headers generic_signature_header)) [
        | inl absent ↦ rw absent (λ h. cc, λ h. cc)
        | inr (presented, found) ↦ elim (Bool-cases (starts_with (lit "sha256=") presented)) [
          | inl signed ↦
              rw (found, signed)
                (
                  λ h. (
                    λ e. cc,
                    ap some (
                        remove_prefix-inverse (lit "sha256=") presented signed
                        ∙ ap (λ d. lit "sha256=" ++ d)
                            (compare_digest-true (remove_prefix (lit "sha256=") presented)
                              (hmac_sha256 (c ∷ s) body) h)),
                  ),
                  λ (_, same).
                      let carried : presented ≡ lit "sha256=" ++ hmac_sha256 (c ∷ s) body =
                        ground arith in
                      ap (λ d. compare_digest d (hmac_sha256 (c ∷ s) body))
                        (ap (remove_prefix (lit "sha256=")) carried
                          ∙ remove_prefix-append (lit "sha256=") (hmac_sha256 (c ∷ s) body))
                      ∙ compare_digest_refl (hmac_sha256 (c ∷ s) body)
                          (hexdigest-IsAscii (c ∷ s) body),
                )
          | inr bare ↦
              rw (found, bare)
                (
                  λ h. cc,
                  λ (_, same).
                      let carried : presented ≡ lit "sha256=" ++ hmac_sha256 (c ∷ s) body =
                        ground arith in
                      let marked = starts_with-append (lit "sha256=") (hmac_sha256 (c ∷ s) body) in
                      cc,
                )
        ]
      ]

-- A signature that passes is the HMAC of the body under a configured secret.
pub verify_hmac_signature_sound :
    (hmac_sha256 : Text → Text → Text) (body : Text) (headers : Headers) (secret : Text)
    → verify_hmac_signature hmac_sha256 body headers secret ≡ ok true
    → (secret ≢ [])
      × (header headers generic_signature_header ≡ some (lit "sha256=" ++ hmac_sha256 secret body))
unfolding verify_hmac_signature
verify_hmac_signature_sound hmac_sha256 body headers [] h = cc
verify_hmac_signature_sound hmac_sha256 body headers (c ∷ s) h =
    elim (Option-cases (header headers generic_signature_header)) [
      | inl absent ↦ cc (rw absent at h)
      | inr (presented, found) ↦ elim (Bool-cases (starts_with (lit "sha256=") presented)) [
        | inr bare ↦ cc (rw (found, bare) at h)
        | inl signed ↦ (
          λ e. cc,
          found
              ∙ ap some (
                  remove_prefix-inverse (lit "sha256=") presented signed
                  ∙ ap (λ d. lit "sha256=" ++ d)
                      (compare_digest-true (remove_prefix (lit "sha256=") presented)
                        (hmac_sha256 (c ∷ s) body) (rw (found, signed) at h))),
        )
      ]
    ]

-- The first part that passes is a signature of the body.
any_digest-true :
    (expected : Text) (parts : List Text)
    → any_digest expected parts ≡ ok true
    → (part : Text) × Memᴰ part parts × (strip part ≡ lit "v1=" ++ expected)
unfolding any_digest
any_digest-true expected [] h = cc
any_digest-true expected (part ∷ parts) h =
    elim (Bool-cases (starts_with (lit "v1=") (strip part))) [
      | inr bare ↦
          let (p, m, same) = any_digest-true expected parts (rw bare at h) in (p, Memᴰ.tail m, same)
      | inl signed ↦ elim (compare_digest-cases (remove_prefix (lit "v1=") (strip part)) expected) [
        | inl same ↦ (
          part,
          Memᴰ.head refl,
          remove_prefix-inverse (lit "v1=") (strip part) signed ∙ ap (λ d. lit "v1=" ++ d) same,
        )
        | inr (inl differ) ↦
            let (p, m, same) = any_digest-true expected parts (rw (signed, differ) at h) in
            (p, Memᴰ.tail m, same)
        | inr (inr wide) ↦ cc (rw (signed, wide) at h)
      ]
    ]

-- A PagerDuty signature that passes is under a configured secret, and one of the parts of the
-- signature header is `v1=` and the HMAC of the body.
pub verify_pagerduty_signature_sound :
    (hmac_sha256 : Text → Text → Text) (body : Text) (headers : Headers) (secret : Text)
    → verify_pagerduty_signature hmac_sha256 body headers secret ≡ ok true
    → (secret ≢ [])
      × ((presented part : Text) × (header headers pagerduty_signature_header ≡ some presented)
          × Memᴰ part (split b',' presented)
          × (strip part ≡ lit "v1=" ++ hmac_sha256 secret body))
unfolding verify_pagerduty_signature
verify_pagerduty_signature_sound hmac_sha256 body headers [] h = cc
verify_pagerduty_signature_sound hmac_sha256 body headers (c ∷ s) h =
    elim (Option-cases (header headers pagerduty_signature_header)) [
      | inl absent ↦ cc (rw absent at h)
      | inr (presented, found) ↦
          let (part, m, same) =
            any_digest-true (hmac_sha256 (c ∷ s) body) (split b',' presented) (rw found at h) in
          (λ e. cc, (presented, part, found, m, same))
    ]

module _ {Address Network : Type 0} (ip_address : Text → Option Address)
    (contains : Network → Address → Bool) where
  listed :
      (peer : Address) (allowlist : List Network)
      → any (λ network. contains network peer) allowlist ≡ true
      → (network : Network) × Memᴰ network allowlist × (contains network peer ≡ true)
  listed peer [] h = cc
  listed peer (network ∷ allowlist) h = elim (Bool-cases (contains network peer)) [
    | inl within ↦ (network, Memᴰ.head refl, within)
    | inr outside ↦
        let (found, m, within) = listed peer allowlist (rw outside at h) in
        (found, Memᴰ.tail m, within)
  ]

  -- A peer that passes has an address in a network of the allowlist.
  pub verify_source_ip_sound :
      (client_host : Option Text) (allowlist : List Network)
      → verify_source_ip ip_address contains client_host allowlist ≡ true
      → (host : Text) × (peer : Address) × (network : Network) × (client_host ≡ some host)
        × (host ≢ [])
        × (ip_address host ≡ some peer)
        × Memᴰ network allowlist
        × (contains network peer ≡ true)
  unfolding verify_source_ip
  verify_source_ip_sound none allowlist h = cc
  verify_source_ip_sound (some []) allowlist h = cc
  verify_source_ip_sound (some (c ∷ host)) allowlist h =
      elim (Option-cases (ip_address (c ∷ host))) [
        | inl unreadable ↦ cc (rw unreadable at h)
        | inr (peer, read) ↦
            let (network, m, within) = listed peer allowlist (rw read at h) in
            (c ∷ host, peer, network, refl, λ e. cc, read, m, within)
      ]
