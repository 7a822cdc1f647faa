-- ===== src/Bson/Compare/Opposite.antt =====
-- The comparisons of src/mongo/bson/bsonelement.cpp and bsonobj.cpp always answer, and the other way round with
-- the opposite answer.
use Prim.Native.Nat.{Ordering, lt, eq, gt}
use mongo_cxx_driver.Base.{
  ℕ, ◌≡◌, refl, sym, ap, Bool, true, false, Option, none, some, List, [], ◌∷◌, arith, Bool-cases,
  inl, inr, length, leb, take, flip, compare-flip, if◌then◌else◌,
}
use mongo_cxx_driver.Net.HostAndPort.{compare_text}
use mongo_cxx_driver.Net.HostAndPort.Order.{compare_text-flip}
use mongo_cxx_driver.Bson.Numbers.{Doubles, compare_longs, compare_double_to_long}
use mongo_cxx_driver.Bson.Numbers.Exact.{compare_longs-flip, compare_doubles-flip}
use mongo_cxx_driver.Bson.Compare.{
  Value, eoo, undefined, null, min_key, max_key, double, string, symbol, code, object, array,
  bin_data, object_id, boolean, date, regex, db_ref, code_w_scope, int32, int64, timestamp, Fields,
  no_fields, field, canonical_type, is_number, memcmp, then_by, compare_bytes, terminated,
  compare_sized, or_else, first_descends, next_key, directed, compare_element_values, wo_compare_by,
  wo_compare_object,
}

-- Both comparisons answer, with opposite answers.
abbrev Opposite : Option Ordering → Option Ordering → Type 0
Opposite none r' = ⊥
Opposite (some o) r' = r' ≡ some (flip o)

then_by-flip : (o k : Ordering) → then_by (flip o) (flip k) ≡ flip (then_by o k)
then_by-flip lt k = refl
then_by-flip eq k = refl
then_by-flip gt k = refl

flip-flip : (o : Ordering) → flip (flip o) ≡ o
flip-flip lt = refl
flip-flip eq = refl
flip-flip gt = refl

compare_bytes-flip : (a b : List ℕ) → compare_bytes b a ≡ flip (compare_bytes a b)
unfolding compare_bytes memcmp
compare_bytes-flip a b = elim (Bool-cases (leb (length a) (length b))) [
  | inl e ↦ elim (Bool-cases (leb (length b) (length a))) [
    | inl f ↦
        let same : length b ≡ length a = ground arith in
        rw (e, f, compare_text-flip, compare-flip, same, then_by-flip) refl
    | inr f ↦ rw (e, f, compare_text-flip, compare-flip, then_by-flip) refl
  ]
  | inr e ↦ elim (Bool-cases (leb (length b) (length a))) [
    | inl f ↦ rw (e, f, compare_text-flip, compare-flip, then_by-flip) refl
    | inr f ↦ absurd (ground arith)
  ]
]

memcmp-flip : (n : ℕ) (a b : List ℕ) → memcmp n b a ≡ flip (memcmp n a b)
unfolding memcmp
memcmp-flip n a b = compare_text-flip (take n a) (take n b)

compare_sized-flip : (a b : List ℕ) → compare_sized b a ≡ flip (compare_sized a b)
unfolding compare_sized
compare_sized-flip a b = ground (arith, memcmp-flip (length a) a b)

or_else-Opposite :
    (r r' k k' : Option Ordering)
    → Opposite r r'
    → Opposite k k'
    → Opposite (or_else r k) (or_else r' k')
or_else-Opposite none r' k k' h i = absurd h
or_else-Opposite (some lt) r' k k' h i = rw h refl
or_else-Opposite (some eq) r' k k' h i = rw h i
or_else-Opposite (some gt) r' k k' h i = rw h refl

directed-Opposite :
    (b : Bool) (r r' : Option Ordering) → Opposite r r' → Opposite (directed b r) (directed b r')
directed-Opposite false r r' h = h
directed-Opposite true none r' h = absurd h
directed-Opposite true (some o) r' h = rw h refl

-- Two elements of one canonical type: the names, then the values.
named :
    (c : Bool) (n m : List ℕ) (k k' : Option Ordering)
    → Opposite k k'
    → Opposite
        (or_else (some (if c then compare_text n m else eq)) k)
        (or_else (some (if c then compare_text m n else eq)) k')
named true n m k k' h =
    or_else-Opposite (some (compare_text n m)) (some (compare_text m n)) k k'
      (ap some (compare_text-flip n m)) h
named false n m k k' h = h

regex-flip :
    (p f q g : List ℕ)
    → then_by (compare_text q p) (compare_text g f)
      ≡ flip (then_by (compare_text p q) (compare_text f g))
regex-flip p f q g = rw (compare_text-flip p q, compare_text-flip f g, then_by-flip) refl

module _ (D : Doubles) where
  abbrev Sides : Bool → List ℕ → Value → List ℕ → Value → Type 0
  Sides c n v m w =
      Opposite (wo_compare_by c n v m w (compare_element_values D v w))
        (wo_compare_by c m w n v (compare_element_values D w v))

  mutual
    unfolding compare_element_values wo_compare_object canonical_type is_number compare_longs
        compare_double_to_long

    value-Sides : (c : Bool) (n : List ℕ) (v : Value) (m : List ℕ) (w : Value) → Sides c n v m w
    value-Sides c n eoo m eoo = named c n m _ _ refl
    value-Sides c n eoo m undefined = named c n m _ _ refl
    value-Sides c n undefined m eoo = named c n m _ _ refl
    value-Sides c n undefined m undefined = named c n m _ _ refl
    value-Sides c n null m null = named c n m _ _ refl
    value-Sides c n min_key m min_key = named c n m _ _ refl
    value-Sides c n max_key m max_key = named c n m _ _ refl
    value-Sides c n (boolean a) m (boolean b) = named c n m _ _ (ap some (compare_longs-flip a b))
    value-Sides c n (date a) m (date b) = named c n m _ _ (ap some (compare_longs-flip a b))
    value-Sides c n (timestamp a) m (timestamp b) = named c n m _ _ (ap some (compare-flip a b))
    value-Sides c n (int32 a) m (int32 b) = named c n m _ _ (ap some (compare_longs-flip a b))
    value-Sides c n (int32 a) m (int64 b) = named c n m _ _ (ap some (compare_longs-flip a b))
    value-Sides c n (int64 a) m (int32 b) = named c n m _ _ (ap some (compare_longs-flip a b))
    value-Sides c n (int64 a) m (int64 b) = named c n m _ _ (ap some (compare_longs-flip a b))
    value-Sides c n (int32 a) m (double b) =
        named c n m _ _ (ap some (compare_doubles-flip (D.to_double a) b))
    value-Sides c n (double a) m (int32 b) =
        named c n m _ _ (ap some (compare_doubles-flip a (D.to_double b)))
    value-Sides c n (double a) m (double b) = named c n m _ _ (ap some (compare_doubles-flip a b))
    value-Sides c n (int64 a) m (double b) = named c n m _ _ refl
    value-Sides c n (double a) m (int64 b) = named c n m _ _ (ap some (sym (flip-flip _)))
    value-Sides c n (object_id a) m (object_id b) = named c n m _ _ (ap some (memcmp-flip 12 a b))
    value-Sides c n (code a) m (code b) =
        named c n m _ _ (ap some (compare_bytes-flip (terminated a) (terminated b)))
    value-Sides c n (string a) m (string b) =
        named c n m _ _ (ap some (compare_bytes-flip (terminated a) (terminated b)))
    value-Sides c n (string a) m (symbol b) =
        named c n m _ _ (ap some (compare_bytes-flip (terminated a) (terminated b)))
    value-Sides c n (symbol a) m (string b) =
        named c n m _ _ (ap some (compare_bytes-flip (terminated a) (terminated b)))
    value-Sides c n (symbol a) m (symbol b) =
        named c n m _ _ (ap some (compare_bytes-flip (terminated a) (terminated b)))
    value-Sides c n (object d) m (object e) = named c n m _ _ (object_sides [] true d e)
    value-Sides c n (array d) m (array e) = named c n m _ _ (object_sides [] true d e)
    value-Sides c n (db_ref a) m (db_ref b) = named c n m _ _ (ap some (compare_sized-flip a b))
    value-Sides c n (bin_data t a) m (bin_data u b) =
        named c n m _ _ (ap some (compare_sized-flip (t ∷ a) (u ∷ b)))
    value-Sides c n (regex p f) m (regex q g) = named c n m _ _ (ap some (regex-flip p f q g))
    value-Sides c n (code_w_scope a d) m (code_w_scope b e) = named c n m _ _ (
        or_else-Opposite (some (compare_bytes a b)) (some (compare_bytes b a))
          (wo_compare_object D [] true d e) (wo_compare_object D [] true e d)
          (ap some (compare_bytes-flip a b)) (object_sides [] true d e))
    value-Sides c n v m w = refl

    object_sides :
        (key : List Bool) (c : Bool) (d e : Fields)
        → Opposite (wo_compare_object D key c d e) (wo_compare_object D key c e d)
    object_sides key c no_fields no_fields = refl
    object_sides key c no_fields (field m w r) = refl
    object_sides key c (field n v l) no_fields = refl
    object_sides key c (field n v l) (field m w r) =
        or_else-Opposite _ _ (wo_compare_object D (next_key key) c l r)
          (wo_compare_object D (next_key key) c r l)
          (directed-Opposite (first_descends key)
            (wo_compare_by c n v m w (compare_element_values D v w))
            (wo_compare_by c m w n v (compare_element_values D w v)) (value-Sides c n v m w))
          (object_sides (next_key key) c l r)

  -- Two documents always compare, whatever the sort key, and the other way round with the opposite answer: no
  -- assertion fails, and no value is read as one of another type.
  pub wo_compare_object-opposite :
      (key : List Bool) (c : Bool) (d e : Fields)
      → (o : Ordering) × (wo_compare_object D key c d e ≡ some o)
        × (wo_compare_object D key c e d ≡ some (flip o))
  wo_compare_object-opposite key c d e =
      answered (wo_compare_object D key c d e) (object_sides key c d e)
    where
      answered :
          {r' : Option Ordering} (r : Option Ordering)
          → Opposite r r'
          → (o : Ordering) × (r ≡ some o) × (r' ≡ some (flip o))
      answered none h = absurd h
      answered (some o) h = (o, refl, h)
