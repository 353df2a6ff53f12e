-- ===== src/Config/Overrides.antt =====
-- src/smokejumper/config.py: what `_reconcile_shared_env` leaves of the settings that it is given.
use smokejumper.Prelude.{
  ◌≡◌, refl, sym, ap, subst, ◌∙◌, inl, inr, Bool, true, false, Option, none, some, List, [], ◌∷◌,
  Text, text_eq, text_eq_iff, text_eq_refl, text_eq_flip, lower, Bool-cases, Option-cases, All,
}
use smokejumper.Contracts.Json.{
  Json, null, bool, int, float, arr, str, obj, Fields, end, field, get,
}
use smokejumper.Config.Layers.{
  Environ, BareSecret, bare_secret_vars, drop_keys, is_compose_only, pop, put, under, route, routed,
  consume, consume_all, reconcile_shared_env,
}

-- `data[section][key] = v`
unfoldable pub IsGiven : Text → Text → Json → Fields → Type 0
IsGiven section key v fields =
    (d : Fields) × (get section fields ≡ some (obj d)) × (get key d ≡ some v)

get-drop_keys :
    (test : Text → Bool) (key : Text) (d : Fields)
    → test key ≡ false
    → get key (drop_keys test d) ≡ get key d
unfolding get drop_keys
get-drop_keys test key end kept = refl
get-drop_keys test key (field k v d) kept = elim (Bool-cases (text_eq k key)) [
  | inl same ↦
      let here : test k ≡ false =
        subst (λ x. test x ≡ false) (sym ((text_eq_iff k key).0 same)) kept in
      rw (here, same) refl
  | inr other ↦ elim (Bool-cases (test k)) [
    | inl dropped ↦ rw (dropped, other) (get-drop_keys test key d kept)
    | inr stays ↦ rw (stays, other) (get-drop_keys test key d kept)
  ]
]

get-put_same : (key : Text) (v : Json) (d : Fields) → get key (put key v d) ≡ some v
unfolding get put
get-put_same key v end = rw (text_eq_refl key) refl
get-put_same key v (field k u d) = elim (Bool-cases (text_eq k key)) [
  | inl same ↦ rw (same, get) (rw same refl)
  | inr other ↦ rw (other, get) (rw other (get-put_same key v d))
]

get-put_other :
    (key other : Text) (v : Json) (d : Fields)
    → text_eq key other ≡ false
    → get other (put key v d) ≡ get other d
unfolding get put
get-put_other key other v end apart = rw apart refl
get-put_other key other v (field k u d) apart = elim (Bool-cases (text_eq k key)) [
  | inl same ↦
      let here : text_eq k other ≡ false =
        subst (λ x. text_eq x other ≡ false) (sym ((text_eq_iff k key).0 same)) apart in
      rw (same, here, get) refl
  | inr differs ↦ elim (Bool-cases (text_eq k other)) [
    | inl here ↦ rw (differs, here, get) refl
    | inr skipped ↦ rw (differs, skipped, get) (get-put_other key other v d apart)
  ]
]

get-same : (k key : Text) (d : Fields) → text_eq k key ≡ true → get k d ≡ get key d
get-same k key d same = ap (λ x. get x d) ((text_eq_iff k key).0 same)

-- The explicit key wins over the routed one.
get-under :
    (k key : Text) (value v : Json) (d : Fields)
    → get key d ≡ some v
    → get key (under k value d) ≡ some v
unfolding under get pop drop_keys
get-under k key value v d set = elim (Option-cases (get k d)) [
  | inl missing ↦ elim (Bool-cases (text_eq k key)) [
    | inl same ↦ cc (missing, set, get-same k key d same)
    | inr other ↦ rw (missing, get) (rw other set)
  ]
  | inr (u, there) ↦ elim (Bool-cases (text_eq k key)) [
    | inl same ↦ rw (there, get) (rw same (cc (there, set, get-same k key d same)))
    | inr other ↦
        rw (there, get)
          (rw other (get-drop_keys (λ x. text_eq x k) key d (text_eq_flip k key other) ∙ set))
  ]
]

route-other :
    (secret : BareSecret) (value : Json) (section : Text) (fields : Fields)
    → text_eq secret.section section ≡ false
    → get section (route secret value fields) ≡ get section fields
unfolding route
route-other secret value section fields apart = go (get secret.section fields) refl
  where
    skips : (u : Json) → get section (put secret.section u fields) ≡ get section fields
    skips u = get-put_other secret.section section u fields apart

    go :
        (found : Option Json)
        → get secret.section fields ≡ found
        → get section (route secret value fields) ≡ get section fields
    go none e = rw (e, route) (skips _)
    go (some null) e = rw (e, route) (skips _)
    go (some (obj existing)) e = rw (e, route) (skips _)
    go (some (bool b)) e = rw (e, route) refl
    go (some (int b n)) e = rw (e, route) refl
    go (some (float t)) e = rw (e, route) refl
    go (some (str t)) e = rw (e, route) refl
    go (some (arr xs)) e = rw (e, route) refl

module _ (section key : Text) (v : Json) where
  drop_keys-IsGiven :
      (test : Text → Bool) (fields : Fields)
      → test section ≡ false
      → IsGiven section key v fields
      → IsGiven section key v (drop_keys test fields)
  unfolding IsGiven
  drop_keys-IsGiven test fields kept (d, holds, set) =
      (d, get-drop_keys test section fields kept ∙ holds, set)

  route-IsGiven :
      (secret : BareSecret) (value : Json) (fields : Fields)
      → IsGiven section key v fields
      → IsGiven section key v (route secret value fields)
  unfolding IsGiven route
  route-IsGiven secret value fields (d, holds, set) =
      elim (Bool-cases (text_eq secret.section section)) [
        | inl same ↦
            let here = get-same secret.section section fields same ∙ holds in
            (
              under secret.key value d,
              rw (here, route)
                  (subst
                    (λ x.
                      get x (put secret.section (obj (under secret.key value d)) fields)
                      ≡ some (obj (under secret.key value d)))
                    ((text_eq_iff secret.section section).0 same)
                    (get-put_same secret.section (obj (under secret.key value d)) fields)),
              get-under secret.key key value v d set,
            )
        | inr other ↦ (d, route-other secret value section fields other ∙ holds, set)
      ]

  consume-IsGiven :
      (environ : Environ) (secret : BareSecret) (fields : Fields)
      → text_eq section (lower secret.variable) ≡ false
      → IsGiven section key v fields
      → IsGiven section key v (consume environ secret fields)
  unfolding consume pop
  consume-IsGiven environ secret fields apart set =
      let popped = drop_keys-IsGiven (λ k. text_eq k (lower secret.variable)) fields apart set in
      elim (Option-cases (routed environ secret fields)) [
        | inl nothing ↦ rw (nothing, consume) popped
        | inr (value, given) ↦
            rw (given, consume)
              (route-IsGiven secret value (pop (lower secret.variable) fields) popped)
      ]

  consume_all-IsGiven :
      (environ : Environ) (secrets : List BareSecret) (fields : Fields)
      → All (λ (secret : BareSecret). text_eq section (lower secret.variable) ≡ false) secrets
      → IsGiven section key v fields
      → IsGiven section key v (consume_all environ secrets fields)
  unfolding consume_all
  consume_all-IsGiven environ [] fields apart set = set
  consume_all-IsGiven environ (secret ∷ secrets) fields (here, apart) set =
      consume_all-IsGiven environ secrets (consume environ secret fields) apart
        (consume-IsGiven environ secret fields here set)

-- Reconciling the shared environment never changes a key that a section already sets, whatever
-- the process environment and the `.env` spellings say, where the section is neither named like
-- a host-port override nor like one of the three bare secrets.
pub reconcile_shared_env-IsGiven :
    (environ : Environ) (section key : Text) (v : Json) (fields : Fields)
    → is_compose_only section ≡ false
    → All
        (λ (secret : BareSecret). text_eq section (lower secret.variable) ≡ false)
        bare_secret_vars
    → IsGiven section key v fields
    → IsGiven section key v (reconcile_shared_env environ fields)
unfolding reconcile_shared_env
reconcile_shared_env-IsGiven environ section key v fields kept apart set =
    consume_all-IsGiven section key v environ bare_secret_vars (drop_keys is_compose_only fields)
      apart (drop_keys-IsGiven section key v is_compose_only fields kept set)
