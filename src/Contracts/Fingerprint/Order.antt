-- ===== src/Contracts/Fingerprint/Order.antt =====
-- The order by which Python sorts texts and pairs is a strict total order.
use mathlib.Core.Bool.{true, false}
use smokejumper.Prelude.{◌≡◌, [], ◌∷◌, arith, Text, text_eq_iff, text_lt}
use smokejumper.Prelude.Sorted.{IsStrictOrder}
use smokejumper.Contracts.Fingerprint.{Pair, pair_lt}

asym : (s t : Text) → text_lt s t ≡ true → text_lt t s ≡ false
unfolding text_lt
asym [] [] h = cc
asym [] (y ∷ ys) h = ground arith
asym (x ∷ xs) [] h = cc
asym (x ∷ xs) (y ∷ ys) h = ground (arith, asym xs ys)

trans : (s t u : Text) → text_lt s t ≡ true → text_lt t u ≡ true → text_lt s u ≡ true
unfolding text_lt
trans [] [] u h k = cc
trans [] (y ∷ ys) [] h k = cc
trans [] (y ∷ ys) (z ∷ zs) h k = ground arith
trans (x ∷ xs) [] u h k = cc
trans (x ∷ xs) (y ∷ ys) [] h k = cc
trans (x ∷ xs) (y ∷ ys) (z ∷ zs) h k = ground (arith, trans xs ys zs)

same : (s t : Text) → text_lt s t ≡ false → text_lt t s ≡ false → s ≡ t
unfolding text_lt
same [] [] h k = ground arith
same [] (y ∷ ys) h k = cc
same (x ∷ xs) [] h k = cc
same (x ∷ xs) (y ∷ ys) h k = ground (arith, same xs ys)

pair_asym : (p q : Pair) → pair_lt p q ≡ true → pair_lt q p ≡ false
unfolding pair_lt
pair_asym (a, b) (c, d) h = ground (arith, asym a c, asym b d, text_eq_iff a c, text_eq_iff c a)

pair_trans : (p q r : Pair) → pair_lt p q ≡ true → pair_lt q r ≡ true → pair_lt p r ≡ true
unfolding pair_lt
pair_trans (a, b) (c, d) (e, f) h k =
    ground
      (arith, trans a c e, trans b d f, asym a c, text_eq_iff a c, text_eq_iff c e, text_eq_iff a e)

pair_same : (p q : Pair) → pair_lt p q ≡ false → pair_lt q p ≡ false → p ≡ q
unfolding pair_lt
pair_same (a, b) (c, d) h k = ground (arith, same a c, same b d, text_eq_iff a c, text_eq_iff c a)

pub pair_lt-IsStrictOrder : IsStrictOrder pair_lt
pair_lt-IsStrictOrder = record { asym = pair_asym; trans = pair_trans; same = pair_same }
