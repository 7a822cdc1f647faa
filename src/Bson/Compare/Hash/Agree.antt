-- ===== src/Bson/Compare/Hash/Agree.antt =====
-- The hashes of src/mongo/bson/bsonelement.cpp and bsonobj.cpp agree with the comparisons.
use Prim.Native.Nat.{Ordering, eq, compare}
use mongo_cxx_driver.Base.{
  ℕ, ◌≡◌, refl, sym, subst, ap, ◌∙◌, true, Option, some, List, [], ◌∷◌, take,
}
use mongo_cxx_driver.Base.Int.{ℤ, pos, negsuc}
use mongo_cxx_driver.Net.HostAndPort.{compare_text}
use mongo_cxx_driver.Net.HostAndPort.Order.{compare_text-eq}
use mongo_cxx_driver.Bson.Numbers.{
  Double, Doubles, compare_longs, compare_doubles, compare_long_to_double, compare_double_to_long,
}
use mongo_cxx_driver.Bson.Numbers.Exact.{exactly, IsLong, compare_long_to_double-exact}
use mongo_cxx_driver.Bson.Compare.{
  Value, eoo, undefined, null, min_key, max_key, double, string, symbol, code, object, array,
  bin_data, object_id, boolean, date, regex, db_ref, code_w_scope, int32, int64, timestamp, Fields,
  no_fields, field, canonical_type, is_number, memcmp, compare_bytes, terminated, or_else,
  compare_element_values, wo_compare_by, wo_compare, wo_compare_object,
}
use mongo_cxx_driver.Bson.Compare.Hash.{
  number, truth, bits, real, hash, Hasher, bin_data_value, is_true, start_hash, hash_value,
  hash_object, hash_element,
}
use mongo_cxx_driver.Bson.Compare.Hash.Equal.{
  compare-eq, compare_longs-eq, compare_doubles-eq, or_else-eq, compare_sized-eq, compare_bytes-eq,
  compare_terminated-eq, memcmp-eq, eq_of_some, flip-eq, regex-eq,
}

module _ (D : Doubles) (H : Hasher) where
  unfoldable mutual
    -- Its numbers are in the range of their types, those of the documents in it too.
    pub IsValid : Value → Type 0
    IsValid (double d) = D.Representable d
    IsValid (int64 n) = IsLong D n
    IsValid (object d) = AllValid d
    IsValid (array d) = AllValid d
    IsValid (code_w_scope s d) = AllValid d
    IsValid v = Unit

    pub AllValid : Fields → Type 0
    AllValid no_fields = Unit
    AllValid (field n v rest) = IsValid v × AllValid rest

  -- Two elements with the same name, and what of their values the hash is made of.
  by_value :
      {A : Type 0} (n m : List ℕ) (t : ℤ) (a b : A) (r : Option Ordering) (f : ℕ → A → ℕ)
      → (r ≡ some eq → a ≡ b)
      → or_else (some (compare_text n m)) r ≡ some eq
      → f (start_hash D H n t) a ≡ f (start_hash D H m t) b
  by_value n m t a b r f same h =
      let (names, values) = or_else-eq (some (compare_text n m)) r h in
      ap (λ x. f (start_hash D H x t) a) (compare_text-eq n m (eq_of_some _ names))
      ∙ ap (f (start_hash D H m t)) (same values)

  valueless :
      (n m : List ℕ) (t : ℤ)
      → or_else (some (compare_text n m)) (some eq) ≡ some eq
      → start_hash D H n t ≡ start_hash D H m t
  valueless n m t h = by_value n m t n n (some eq) (λ s x. s) (λ e. refl) h

  int_real : (a : ℤ) (b : Double) → compare_doubles (D.to_double a) b ≡ eq → D.to_double a ≡ b
  int_real a b h = compare_doubles-eq (D.to_double a) b h

  -- A long that is equal to a double is one, and is converted to it.
  long_real :
      (a : ℤ) (b : Double)
      → IsLong D a
      → D.Representable b
      → compare_long_to_double D a b ≡ eq
      → D.to_double a ≡ b
  long_real a b range r h =
      let same =
        compare_doubles-eq (exactly D a) b (sym (compare_long_to_double-exact D a b range r) ∙ h) in
      D.converted a (subst D.Representable (sym same) r) ∙ same

  abbrev Agree : List ℕ → Value → List ℕ → Value → Type 0
  Agree n v m w =
      wo_compare_by true n v m w (compare_element_values D v w) ≡ some eq
      → IsValid v
      → IsValid w
      → hash_element D H n v ≡ hash_element D H m w

  -- What the number is hashed as.
  abbrev by_real : ℕ → Double → ℕ
  by_real s d = H.combine s (real d)

  abbrev by_text : ℕ → List ℕ → ℕ
  by_text s x = H.combine s (hash (H.text_hash x))

  abbrev by_bin_data : ℕ → List ℕ → ℕ
  by_bin_data s [] = s
  by_bin_data s (t ∷ d) = by_text s (bin_data_value t d)

  scoped :
      (a b : List ℕ) (i j : ℕ) (r : Option Ordering)
      → (r ≡ some eq → i ≡ j)
      → or_else (some (compare_bytes a b)) r ≡ some eq
      → ◌≡◌ {A = List ℕ × ℕ} (a, i) (b, j)
  scoped a b i j r same h =
      let (codes, scopes) = or_else-eq (some (compare_bytes a b)) r h in
      let texts = compare_bytes-eq a b (eq_of_some _ codes) in
      let hashes = same scopes in λ k. (texts k, hashes k)

  mutual
    unfolding compare_element_values wo_compare_object canonical_type is_number compare_longs
        compare_double_to_long hash_element hash_value IsValid AllValid

    value-Agree : (n : List ℕ) (v : Value) (m : List ℕ) (w : Value) → Agree n v m w
    value-Agree n eoo m eoo h p q = valueless n m (pos 0) h
    value-Agree n eoo m undefined h p q = valueless n m (pos 0) h
    value-Agree n undefined m eoo h p q = valueless n m (pos 0) h
    value-Agree n undefined m undefined h p q = valueless n m (pos 0) h
    value-Agree n null m null h p q = valueless n m (pos 5) h
    value-Agree n min_key m min_key h p q = valueless n m (negsuc 0) h
    value-Agree n max_key m max_key h p q = valueless n m (pos 127) h
    value-Agree n (boolean a) m (boolean b) h p q =
        by_value n m (pos 40) a b (some (compare_longs a b))
          (λ s x. H.combine s (truth (is_true x))) (λ e. compare_longs-eq a b (eq_of_some _ e)) h
    value-Agree n (date a) m (date b) h p q =
        by_value n m (pos 45) a b (some (compare_longs a b)) (λ s x. H.combine s (number x))
          (λ e. compare_longs-eq a b (eq_of_some _ e)) h
    value-Agree n (timestamp a) m (timestamp b) h p q =
        by_value n m (pos 47) a b (some (compare a b)) (λ s x. H.combine s (bits x))
          (λ e. compare-eq a b (eq_of_some _ e)) h
    value-Agree n (int32 a) m (int32 b) h p q =
        by_value n m (pos 10) a b (some (compare_longs a b)) (λ s x. by_real s (D.to_double x))
          (λ e. compare_longs-eq a b (eq_of_some _ e)) h
    value-Agree n (int32 a) m (int64 b) h p q =
        by_value n m (pos 10) a b (some (compare_longs a b)) (λ s x. by_real s (D.to_double x))
          (λ e. compare_longs-eq a b (eq_of_some _ e)) h
    value-Agree n (int64 a) m (int32 b) h p q =
        by_value n m (pos 10) a b (some (compare_longs a b)) (λ s x. by_real s (D.to_double x))
          (λ e. compare_longs-eq a b (eq_of_some _ e)) h
    value-Agree n (int64 a) m (int64 b) h p q =
        by_value n m (pos 10) a b (some (compare_longs a b)) (λ s x. by_real s (D.to_double x))
          (λ e. compare_longs-eq a b (eq_of_some _ e)) h
    value-Agree n (int32 a) m (double b) h p q =
        by_value n m (pos 10) (D.to_double a) b _ by_real (λ e. int_real a b (eq_of_some _ e)) h
    value-Agree n (double a) m (int32 b) h p q =
        by_value n m (pos 10) a (D.to_double b) _ by_real
          (λ e. compare_doubles-eq a (D.to_double b) (eq_of_some _ e)) h
    value-Agree n (double a) m (double b) h p q =
        by_value n m (pos 10) a b _ by_real (λ e. compare_doubles-eq a b (eq_of_some _ e)) h
    value-Agree n (int64 a) m (double b) h p q =
        by_value n m (pos 10) (D.to_double a) b _ by_real (λ e. long_real a b p q (eq_of_some _ e))
          h
    value-Agree n (double a) m (int64 b) h p q =
        by_value n m (pos 10) a (D.to_double b) _ by_real
          (λ e. sym (long_real b a q p (flip-eq _ (eq_of_some _ e)))) h
    value-Agree n (object_id a) m (object_id b) h p q =
        by_value n m (pos 35) (take 12 a) (take 12 b) (some (memcmp 12 a b)) H.combine_object_id
          (λ e. memcmp-eq 12 a b (eq_of_some _ e)) h
    value-Agree n (code a) m (code b) h p q =
        by_value n m (pos 60) a b _ by_text (λ e. compare_terminated-eq a b (eq_of_some _ e)) h
    value-Agree n (string a) m (string b) h p q =
        by_value n m (pos 15) a b _ by_text (λ e. compare_terminated-eq a b (eq_of_some _ e)) h
    value-Agree n (string a) m (symbol b) h p q =
        by_value n m (pos 15) a b _ by_text (λ e. compare_terminated-eq a b (eq_of_some _ e)) h
    value-Agree n (symbol a) m (string b) h p q =
        by_value n m (pos 15) a b _ by_text (λ e. compare_terminated-eq a b (eq_of_some _ e)) h
    value-Agree n (symbol a) m (symbol b) h p q =
        by_value n m (pos 15) a b _ by_text (λ e. compare_terminated-eq a b (eq_of_some _ e)) h
    value-Agree n (object d) m (object e) h p q =
        by_value n m (pos 20) (hash_object D H 0 d) (hash_object D H 0 e)
          (wo_compare_object D [] true d e) (λ s x. H.combine s (hash x))
          (λ z. object_agree 0 d e z p q) h
    value-Agree n (array d) m (array e) h p q =
        by_value n m (pos 25) (hash_object D H 0 d) (hash_object D H 0 e)
          (wo_compare_object D [] true d e) (λ s x. H.combine s (hash x))
          (λ z. object_agree 0 d e z p q) h
    value-Agree n (db_ref a) m (db_ref b) h p q =
        by_value n m (pos 55) a b _ by_text (λ e. compare_sized-eq a b (eq_of_some _ e)) h
    value-Agree n (bin_data t a) m (bin_data u b) h p q =
        by_value n m (pos 30) (t ∷ a) (u ∷ b) _ by_bin_data
          (λ e. compare_sized-eq (t ∷ a) (u ∷ b) (eq_of_some _ e)) h
    value-Agree n (regex a f) m (regex b g) h p q =
        by_value n m (pos 50) (a, f) (b, g) _ (λ s x. by_text (by_text s x.0) x.1)
          (λ e. regex-eq a f b g (eq_of_some _ e)) h
    value-Agree n (code_w_scope a d) m (code_w_scope b e) h p q =
        by_value n m (pos 65) (a, hash_object D H 0 d) (b, hash_object D H 0 e)
          (or_else (some (compare_bytes a b)) (wo_compare_object D [] true d e))
          (λ s x. H.combine (by_text s (terminated x.0)) (hash x.1))
          (λ z.
            scoped a b (hash_object D H 0 d) (hash_object D H 0 e) (wo_compare_object D [] true d e)
              (λ y. object_agree 0 d e y p q) z)
          h
    value-Agree n v m w h p q = cc

    object_agree :
        (s : ℕ) (d e : Fields)
        → wo_compare_object D [] true d e ≡ some eq
        → AllValid d
        → AllValid e
        → hash_object D H s d ≡ hash_object D H s e
    object_agree s no_fields no_fields h p q = refl
    object_agree s no_fields (field m w r) h p q = cc
    object_agree s (field n v l) no_fields h p q = cc
    object_agree s (field n v l) (field m w r) h p q =
        let (first, rest) =
          or_else-eq (wo_compare_by true n v m w (compare_element_values D v w))
            (wo_compare_object D [] true l r) h in
        let same = value-Agree n v m w first p.0 q.0 in
        object_agree (H.combine s (hash (hash_element D H n v))) l r rest p.1 q.1
        ∙ ap (λ x. hash_object D H (H.combine s (hash x)) r) same

  -- Two elements, with any values, that `woCompare` finds equal have the same hash, whatever the three types of
  -- their numbers: a long that is equal to a double is hashed as that double.
  pub hash_element-agrees :
      (n : List ℕ) (v : Value) (m : List ℕ) (w : Value)
      → wo_compare D true n v m w ≡ some eq
      → IsValid v
      → IsValid w
      → hash_element D H n v ≡ hash_element D H m w
  unfolding wo_compare
  hash_element-agrees n v m w h p q = value-Agree n v m w h p q
