-- ===== src/Contracts/Fingerprint/Identity.antt =====
-- What a fingerprint identifies: the source, the source's key, and the entities whatever their order.
use mathlib.Core.List.{Perm}
use native.Mathlib.Nat.{ℕ_set}
use smokejumper.Prelude.{
  ◌≡◌, refl, ap, ◌↔◌, List, Text, any, ok, err, value_error, arith, if◌then◌else◌,
}
use smokejumper.Prelude.Sorted.{sorted, sorted-eq_iff}
use smokejumper.Contracts.Fingerprint.{Pair, pair_lt, canonical, is_surrogate, event_fingerprint}
use smokejumper.Contracts.Fingerprint.Order.{pair_lt-IsStrictOrder}
use smokejumper.Contracts.Fingerprint.Decode.{canonical_injective}

Pairs-set : IsSet (List Pair)
Pairs-set = hlevel ℕ_set

same_order : (ps qs : List Pair) → (sorted pair_lt ps ≡ sorted pair_lt qs) ↔ Perm ps qs
same_order = sorted-eq_iff pair_lt pair_lt-IsStrictOrder Pairs-set

-- Two identities have one canonical text exactly when their sources and keys are equal and their
-- entities are the same up to order.
pub canonical-eq_iff :
    (s t k j : Text) (ps qs : List Pair)
    → (canonical s k ps ≡ canonical t j qs) ↔ ((s ≡ t) × (k ≡ j) × Perm ps qs)
unfolding canonical
canonical-eq_iff s t k j ps qs = (
  λ e. let (a, b, c) = canonical_injective s t k j ps qs e in (a, b, (same_order ps qs).0 c),
  λ (a, b, c). cc (a, b, (same_order ps qs).1 c),
)

module _ (sha256_hex : Text → Text) where
  -- The order in which a caller lists the entities changes neither the fingerprint nor whether
  -- the identity can be hashed.
  pub event_fingerprint_perm :
      (source key : Text) (ps qs : List Pair)
      → Perm ps qs
      → event_fingerprint sha256_hex source key ps ≡ event_fingerprint sha256_hex source key qs
  unfolding event_fingerprint
  event_fingerprint_perm source key ps qs p =
      ap (λ text. if any is_surrogate text then err value_error else ok (sha256_hex text))
        ((canonical-eq_iff source source key key ps qs).1 (refl, refl, p))

  -- Two identities that are hashed to one fingerprint have the same source, the same key and the
  -- same entities up to order, if the digest does not collide on their two canonical texts.
  pub event_fingerprint_identity :
      (s t k j : Text) (ps qs : List Pair) (f : Text)
      → (sha256_hex (canonical s k ps) ≡ sha256_hex (canonical t j qs)
          → canonical s k ps ≡ canonical t j qs)
      → event_fingerprint sha256_hex s k ps ≡ ok f
      → event_fingerprint sha256_hex t j qs ≡ ok f
      → (s ≡ t) × (k ≡ j) × Perm ps qs
  unfolding event_fingerprint
  event_fingerprint_identity s t k j ps qs f no_collision e e' =
      (canonical-eq_iff s t k j ps qs).0 (no_collision (ground arith))
