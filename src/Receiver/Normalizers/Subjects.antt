-- ===== src/Receiver/Normalizers/Subjects.antt =====
-- The identity of an incident as receiver/normalizers computes it.
use mathlib.Core.List.{Memᴰ, Perm, Permᴰ}
use mathlib.Core.Logic.{∥∥₁_map}
use native.Mathlib.Nat.{ℕ_set}
use smokejumper.Prelude.{
  ℕ, ◌≡◌, refl, sym, ap, subst, ◌∙◌, Bool, Option-cases, inl, inr, Option, none, some, List, [],
  ◌∷◌, map, Text, lit, Result, ok, >>=-eq-ok, guard-eq-ok,
}
use smokejumper.Prelude.Distinct.{distinct-perm, distinct_repeat}
use smokejumper.Contracts.Json.{Json, obj, Fields, get}
use smokejumper.Contracts.Fingerprint.{Pair, pair_lt, event_fingerprint}
use smokejumper.Contracts.Fingerprint.Order.{pair_lt-IsStrictOrder}
use smokejumper.Contracts.Events.{AgentEvent, as_pair, model_validate, source_value, datadog}
use smokejumper.Receiver.Delivery.Outbox.{model_validate-eq-ok}
use smokejumper.Receiver.Normalizers.{entities_of, entity_of, add_pair, object, text_at}
use smokejumper.Receiver.Normalizers.Datadog.{
  tag_pair, tag_pairs, tag_entities, parse_tags, built, occurred_at_of, normalize,
}

add_pair-permᴰ :
    (p : Option Pair) {l m : List Pair} → Permᴰ l m → Permᴰ (add_pair p l) (add_pair p m)
add_pair-permᴰ none h = h
add_pair-permᴰ (some p) h = Permᴰ.cons refl h

permᴰ-refl : {A : Type 0} (l : List A) → Permᴰ l l
permᴰ-refl [] = Permᴰ.nil
permᴰ-refl (a ∷ l) = Permᴰ.cons refl (permᴰ-refl l)

add_pair-swap :
    (p q : Option Pair) (l : List Pair)
    → Permᴰ (add_pair p (add_pair q l)) (add_pair q (add_pair p l))
add_pair-swap none q l = permᴰ-refl (add_pair q l)
add_pair-swap (some p) none l = permᴰ-refl (p ∷ l)
add_pair-swap (some p) (some q) l = Permᴰ.swap refl refl

tag_pairs-permᴰ : {l m : List Text} → Permᴰ l m → Permᴰ (tag_pairs l) (tag_pairs m)
unfolding tag_pairs
tag_pairs-permᴰ Permᴰ.nil = Permᴰ.nil
tag_pairs-permᴰ (Permᴰ.cons {a} {b} {l₁} {l₂} e p) =
    rw e (add_pair-permᴰ (tag_pair b) (tag_pairs-permᴰ p))
tag_pairs-permᴰ (Permᴰ.swap {a} {b} {a' = c} {b' = d} {l} p q) =
    rw (p, q) (add_pair-swap (tag_pair d) (tag_pair c) (tag_pairs l))
tag_pairs-permᴰ (Permᴰ.trans p q) = Permᴰ.trans (tag_pairs-permᴰ p) (tag_pairs-permᴰ q)

Pairs-set : IsSet (List Pair)
Pairs-set = hlevel ℕ_set

-- The order in which an alert lists its tags does not change what it is about.
pub tag_entities-perm :
    (tags tags' : List Text) → Perm tags tags' → tag_entities tags ≡ tag_entities tags'
unfolding tag_entities entities_of
tag_entities-perm tags tags' p = ap (map entity_of) (
    distinct-perm pair_lt pair_lt-IsStrictOrder Pairs-set (tag_pairs tags) (tag_pairs tags')
      (∥∥₁_map p tag_pairs-permᴰ))

mem-tag_pairs :
    {tag : Text} (tags : List Text) {p : Pair}
    → Memᴰ tag tags
    → tag_pair tag ≡ some p
    → Memᴰ p (tag_pairs tags)
unfolding tag_pairs
mem-tag_pairs [] m h = elim m [ ]
mem-tag_pairs {tag} (t ∷ tags) {p} (Memᴰ.head e) h =
    subst (λ o. Memᴰ p (add_pair o (tag_pairs tags))) (sym h ∙ ap tag_pair e) (Memᴰ.head refl)
mem-tag_pairs (t ∷ tags) {p} (Memᴰ.tail m) h = behind (tag_pair t) (mem-tag_pairs tags m h)
  where
    behind : (o : Option Pair) → Memᴰ p (tag_pairs tags) → Memᴰ p (add_pair o (tag_pairs tags))
    behind none n = n
    behind (some q) n = Memᴰ.tail n

-- A tag that the rest of the list holds already adds no entity.
tag_entities_repeat :
    (tag : Text) (tags : List Text) → Memᴰ tag tags → tag_entities (tag ∷ tags) ≡ tag_entities tags
unfolding tag_entities tag_pairs entities_of
tag_entities_repeat tag tags m = elim (Option-cases (tag_pair tag)) [
  | inl volatile ↦ rw volatile refl
  | inr (p, identifying) ↦ rw identifying (
      ap (map entity_of) (
        distinct_repeat pair_lt pair_lt-IsStrictOrder (tag_pairs tags)
          (mem-tag_pairs tags m identifying)))
]

module _ (render : Json → Text) (int_of : Text → Option (Bool × ℕ)) (fromtimestamp : ℕ → Result ℕ)
    (sha256_hex : Text → Text) where
  -- What a normalized event is made of.
  normalize-eq-ok :
      (id : ℕ) (document : Json) (received_at : ℕ) {e : AgentEvent}
      → normalize render int_of fromtimestamp sha256_hex id document received_at ≡ ok e
      → (payload : Fields) × (object document ≡ ok payload)
        × (event_fingerprint sha256_hex
              (source_value datadog)
              (text_at render payload (lit "alert_id"))
              (map as_pair
                (tag_entities (parse_tags render int_of fromtimestamp (get (lit "tags") payload))))
            ≡ ok e.fingerprint)
        × (model_validate sha256_hex e ≡ ok e)
  unfolding normalize
  normalize-eq-ok id document received_at {e} h =
      let (payload, read, h1) = >>=-eq-ok _ _ h in
      let (named, h2) = guard-eq-ok _ _ _ h1 in
      let (fingerprint, hashed, h3) = >>=-eq-ok _ _ h2 in
      let (occurred_at, dated, h4) =
        >>=-eq-ok (occurred_at_of render int_of fromtimestamp payload received_at)
          (λ t.
            model_validate sha256_hex
              (built render int_of fromtimestamp id payload received_at fingerprint t))
          h3 in
      let same =
        model_validate-eq-ok sha256_hex
          (built render int_of fromtimestamp id payload received_at fingerprint occurred_at) h4 in
      (
        payload,
        read,
        hashed ∙ ap (λ (x : AgentEvent). ok x.fingerprint) (sym same),
        subst (λ x. model_validate sha256_hex x ≡ ok e) (sym same) h4,
      )

  abbrev tags_of : Fields → List Text
  tags_of payload = parse_tags render int_of fromtimestamp (get (lit "tags") payload)

  -- Two Datadog deliveries that normalize, with one monitor and the same tags in any order, have
  -- one fingerprint, whatever else differs.
  pub fingerprint-normalize :
      (id id' : ℕ) (payload payload' : Fields) (received_at received_at' : ℕ) {e e' : AgentEvent}
      → text_at render payload (lit "alert_id") ≡ text_at render payload' (lit "alert_id")
      → Perm (tags_of payload) (tags_of payload')
      → normalize render int_of fromtimestamp sha256_hex id (obj payload) received_at ≡ ok e
      → normalize render int_of fromtimestamp sha256_hex id' (obj payload') received_at' ≡ ok e'
      → e.fingerprint ≡ e'.fingerprint
  unfolding object
  fingerprint-normalize id id' payload payload' received_at received_at' {e} {e'} monitor tags h
        h' =
      let (p, read, hashed, _) = normalize-eq-ok id (obj payload) received_at h in
      let (p', read', hashed', _) = normalize-eq-ok id' (obj payload') received_at' h' in
      let here : p ≡ payload = cc in
      let here' : p' ≡ payload' = cc in
      let tagged : tag_entities (tags_of payload) ≡ tag_entities (tags_of payload') =
        tag_entities-perm (tags_of payload) (tags_of payload') tags in
      cc
