-- ===== src/Bson/Compare/Hash/Equal.antt =====
-- Values that `woCompare` of src/mongo/bson/bsonelement.cpp finds equal have the same hash.
use Prim.Native.Nat.{Ordering, lt, eq, gt, compare}
use mathlib.Core.List.{append_cancel_right}
use mongo_cxx_driver.Base.{
  ℕ, ◌≡◌, refl, sym, ap, ◌∙◌, Option, none, some, List, [], ◌∷◌, arith, length, take, flip,
}
use mongo_cxx_driver.Base.Int.{ℤ, eq_of_parts}
use mongo_cxx_driver.Net.HostAndPort.{compare_text}
use mongo_cxx_driver.Net.HostAndPort.Order.{compare_text-eq}
use mongo_cxx_driver.Bson.Numbers.{
  Double, nan, minus_inf, plus_inf, finite, compare_longs, compare_doubles,
}
use mongo_cxx_driver.Bson.Compare.{
  memcmp, then_by, compare_bytes, compare_sized, terminated, or_else,
}

pub compare-eq : (a b : ℕ) → compare a b ≡ eq → a ≡ b
compare-eq a b h = ground arith

pub compare_longs-eq : (a b : ℤ) → compare_longs a b ≡ eq → a ≡ b
unfolding compare_longs
compare_longs-eq a b h = eq_of_parts a b (compare-eq _ _ h)

pub compare_doubles-eq : (a b : Double) → compare_doubles a b ≡ eq → a ≡ b
unfolding compare_doubles
compare_doubles-eq nan nan h = refl
compare_doubles-eq minus_inf minus_inf h = refl
compare_doubles-eq plus_inf plus_inf h = refl
compare_doubles-eq (finite a) (finite b) h = ap finite (compare_longs-eq a b h)
compare_doubles-eq nan b h = ground arith
compare_doubles-eq minus_inf b h = ground arith
compare_doubles-eq plus_inf b h = ground arith
compare_doubles-eq (finite a) b h = ground arith

pub then_by-eq : (o k : Ordering) → then_by o k ≡ eq → (o ≡ eq) × (k ≡ eq)
then_by-eq lt k h = cc
then_by-eq eq k h = (refl, h)
then_by-eq gt k h = cc

pub or_else-eq : (r k : Option Ordering) → or_else r k ≡ some eq → (r ≡ some eq) × (k ≡ some eq)
or_else-eq none k h = cc
or_else-eq (some lt) k h = cc
or_else-eq (some eq) k h = (refl, h)
or_else-eq (some gt) k h = cc

take_all : (a : List ℕ) → take (length a) a ≡ a
take_all [] = refl
take_all (x ∷ a) = ap (λ l. x ∷ l) (take_all a)

-- As many bytes as both have, and no difference among them.
same_bytes : (a b : List ℕ) → length a ≡ length b → memcmp (length a) a b ≡ eq → a ≡ b
unfolding memcmp
same_bytes a b e h =
    sym (take_all a)
    ∙ compare_text-eq (take (length a) a) (take (length a) b) h
    ∙ ap (λ n. take n b) e
    ∙ take_all b

pub compare_sized-eq : (a b : List ℕ) → compare_sized a b ≡ eq → a ≡ b
unfolding compare_sized
compare_sized-eq a b h =
    let (sizes, bytes) = then_by-eq (compare (length a) (length b)) (memcmp (length a) a b) h in
    same_bytes a b (compare-eq (length a) (length b) sizes) bytes

pub compare_bytes-eq : (a b : List ℕ) → compare_bytes a b ≡ eq → a ≡ b
unfolding compare_bytes
compare_bytes-eq a b h = ground (arith, same_bytes a b)

pub compare_terminated-eq :
    (a b : List ℕ) → compare_bytes (terminated a) (terminated b) ≡ eq → a ≡ b
compare_terminated-eq a b h =
    append_cancel_right a b (0 ∷ []) (compare_bytes-eq (terminated a) (terminated b) h)

pub memcmp-eq : (n : ℕ) (a b : List ℕ) → memcmp n a b ≡ eq → take n a ≡ take n b
unfolding memcmp
memcmp-eq n a b h = compare_text-eq (take n a) (take n b) h

pub eq_of_some : (o : Ordering) → some o ≡ some eq → o ≡ eq
eq_of_some o h = cc

pub flip-eq : (o : Ordering) → flip o ≡ eq → o ≡ eq
flip-eq lt h = cc
flip-eq eq h = refl
flip-eq gt h = cc

pub regex-eq :
    (p f q g : List ℕ)
    → then_by (compare_text p q) (compare_text f g) ≡ eq
    → ◌≡◌ {A = List ℕ × List ℕ} (p, f) (q, g)
regex-eq p f q g h =
    let (first, second) = then_by-eq (compare_text p q) (compare_text f g) h in
    let same_first = compare_text-eq p q first in
    let same_second = compare_text-eq f g second in λ i. (same_first i, same_second i)
