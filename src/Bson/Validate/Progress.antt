-- ===== src/Bson/Validate/Progress.antt =====
-- One element is read without a fault, forwards, and with its name ended inside the buffer.
use mongo_cxx_driver.Base.{
  ℕ, ◌+◌, ◌-◌, ◌%◌, ◌^◌, ◌≤◌, ◌<◌, ◌≡◌, refl, ◌≢◌, ◌⊎◌, inl, inr, not, Option, none, some, arith,
  drop, ◌==◌,
}
use mongo_cxx_driver.Bson.Validate.{
  Buffer, Outcome, Error, ok, err, fault, out_of_fuel, ◌>>=◌, required, make_error, read_int,
  read_char, memchr, read_c_string, skip_or, read_utf8_string, u64_mod, invalid_bson,
}
use mongo_cxx_driver.Bson.Validate.Reads.{
  Safe, Safe-bind, Safe-bind_eq, Safe-weaken, Safe-required, Safe-guard, Safe-if, Safe-then, Fits,
  Advanced, Advanced-trans, Advanced-Fits, ReadBy, read_char-Safe, read_int-Safe,
  read_c_string-Safe, skip_or-Safe, read_utf8_string-Safe,
}
use mongo_cxx_driver.Bson.Validate.Element.{
  State, begin_obj, within_obj, end_obj, begin_code_w_scope, end_code_w_scope, done, bin_data,
  bad_bin_data_size, db_ref, reg_ex, stay, element_value, validate_element_info, is_empty_type,
  is_eight_byte_type, is_string_type, is_document_type,
}

Advanced-refl : (slack : ℕ) (b : Buffer) → Fits 0 b → Advanced slack b b
Advanced-refl slack b f = record {
  bytes = refl;
  max_length = refl;
  id_elem = refl;
  forward = omega arith;
  inside = omega (arith, f.inside);
}

widen : (b : Buffer) (m : Outcome Buffer) → Safe (Advanced 0 b) m → Safe (Advanced 12 b) m
widen b m = Safe-weaken (Advanced 0 b) (Advanced 12 b) m λ c g. record {
  bytes = g.bytes;
  max_length = g.max_length;
  id_elem = g.id_elem;
  forward = g.forward;
  inside = omega (arith, g.inside);
}

bin_data-Safe :
    (id_elem : Option ℕ) (b : Buffer) → Fits 0 b → Safe (Advanced 0 b) (bin_data id_elem b)
unfolding bin_data
bin_data-Safe id_elem b f =
    Safe-bind (λ r. Advanced 0 b r.1) (Advanced 0 b) (required (read_int b) _) _
      (Safe-required (λ r. Advanced 0 b r.1) (ReadBy 4 0 b) (read_int b) _
        (read_int-Safe b {k = 0} (omega arith) f) (λ r h. h.0))
      λ r a. Safe-guard (Advanced 0 b) (not (bad_bin_data_size r.0)) _ _ λ sized.
        Safe-weaken (Advanced 0 r.1) (Advanced 0 b) (skip_or (1 + r.0) _ r.1)
          (λ c g. Advanced-trans 0 0 b r.1 c (omega arith) a g)
          (skip_or-Safe (1 + r.0) _ r.1 (ground arith) (Advanced-Fits 0 0 b r.1 f a))

-- `DBRef` drops the result of `skip`, so the position may end up twelve bytes past the end.
db_ref-Safe : (b : Buffer) → Fits 0 b → Safe (Advanced 12 b) (db_ref b)
unfolding db_ref
db_ref-Safe b f =
    Safe-then 0 12 b (read_utf8_string b) _ (omega arith) (read_utf8_string-Safe b f) λ b1 a.
      record {
        bytes = refl;
        max_length = refl;
        id_elem = refl;
        forward = omega (arith, a.inside, f.small);
        inside = omega (arith, a.inside, f.small, a.max_length);
      }

reg_ex-Safe : (b : Buffer) → Fits 0 b → Safe (Advanced 0 b) (reg_ex b)
unfolding reg_ex
reg_ex-Safe b f =
    Safe-then 0 0 b (read_c_string b) read_c_string (omega arith) (read_c_string-Safe b f)
      λ b1 a. read_c_string-Safe b1 (Advanced-Fits 0 0 b b1 f a)

-- The result of an element: further on, and no state but these four.
abbrev pub Onward : Buffer → State × Buffer → Type 0
Onward b (s, b') = Advanced 12 b b' × (s ≢ done) × (s ≢ end_code_w_scope)

stay-Safe :
    (b : Buffer) (m : Outcome Buffer) → Safe (Advanced 12 b) m → Safe (Onward b) (stay within_obj m)
stay-Safe b m h =
    Safe-bind (Advanced 12 b) (Onward b) m _ h
      λ c g. (g, (λ (e : within_obj ≡ done). cc), λ (e : within_obj ≡ end_code_w_scope). cc)

pub element_value-Safe :
    (t : ℕ) (id_elem : Option ℕ) (b : Buffer)
    → Fits 0 b
    → Safe (Onward b) (element_value t within_obj id_elem b)
unfolding element_value
element_value-Safe t id_elem b f =
    let fixed = λ (n : ℕ) (h : n < 2 ^ 32).
      stay-Safe b _ (widen b _ (skip_or-Safe n (make_error invalid_bson id_elem) b h f)) in
    let a = Advanced-refl 12 b f in
    let same : Onward b (within_obj, b) = (a, (λ e. cc), (λ e. cc)) in
    let code : Onward b (begin_code_w_scope, b) = (a, (λ e. cc), (λ e. cc)) in
    let document : Onward b (begin_obj, b) = (a, (λ e. cc), (λ e. cc)) in
    Safe-if (Onward b) (is_empty_type t) (ok (within_obj, b)) _ same (
      Safe-if (Onward b) (t == 7) _ _ (fixed 12 (omega arith)) (
        Safe-if (Onward b) (t == 16) _ _ (fixed 4 (omega arith)) (
          Safe-if (Onward b) (t == 8) _ _ (fixed 1 (omega arith)) (
            Safe-if (Onward b) (is_eight_byte_type t) _ _ (fixed 8 (omega arith)) (
              Safe-if (Onward b) (t == 12) _ _ (stay-Safe b _ (db_ref-Safe b f)) (
                Safe-if (Onward b) (t == 11) _ _ (stay-Safe b _ (widen b _ (reg_ex-Safe b f))) (
                  Safe-if (Onward b) (is_string_type t) _ _
                    (stay-Safe b _ (widen b _ (read_utf8_string-Safe b f)))
                    (Safe-if (Onward b) (t == 5) _ _
                      (stay-Safe b _ (widen b _ (bin_data-Safe id_elem b f)))
                      (Safe-if (Onward b) (t == 15) (ok (begin_code_w_scope, b)) _ code (
                        Safe-if (Onward b) (is_document_type t) (ok (begin_obj, b)) _ document
                          tt))))))))))

-- The field name after the type byte has its terminator inside the buffer.
abbrev pub IsNamed : Buffer → Type 0
IsNamed b = (n k : ℕ) × (memchr (drop (b.position + 1) b.bytes) n ≡ ok (some k))

-- An element moves on by a byte at least, and has a name unless it ended the object.
abbrev pub ElementRead : Buffer → State × Buffer → Type 0
ElementRead b (s, b') =
    Advanced 12 b b'
    × (b.position + 1 ≤ b'.position)
    × (b.position + 1 ≤ b.max_length)
    × ((s ≡ end_obj) ⊎ IsNamed b)
    × (s ≢ done)
    × (s ≢ end_code_w_scope)

required-ok {ℓ} :
    {A : Type ℓ} (m : Outcome (Option A)) (e : Error) (a : A)
    → required m e ≡ ok a
    → m ≡ ok (some a)
required-ok (ok none) e a h = cc
required-ok (ok (some x)) e a h = cc
required-ok (err x) e a h = cc
required-ok fault e a h = cc
required-ok out_of_fuel e a h = cc

bind-ok {ℓ κ} :
    {A : Type ℓ} {B : Type κ} (m : Outcome A) (f : A → Outcome B) (c : B)
    → (m >>= f) ≡ ok c
    → (a : A) × (m ≡ ok a) × (f a ≡ ok c)
bind-ok (ok a) f c h = (a, refl, h)
bind-ok (err e) f c h = cc
bind-ok fault f c h = cc
bind-ok out_of_fuel f c h = cc

c_string_ends :
    (b b' : Buffer)
    → read_c_string b ≡ ok b'
    → (n k : ℕ) × (memchr (drop b.position b.bytes) n ≡ ok (some k))
unfolding read_c_string
c_string_ends b b' h =
    let (k, e, _) =
      bind-ok
        (required
          (memchr (drop b.position b.bytes) ((b.max_length + u64_mod - b.position) % u64_mod)) _)
        _ b' h in
    (
      _,
      k,
      required-ok
          (memchr (drop b.position b.bytes) ((b.max_length + u64_mod - b.position) % u64_mod)) _ k
          e,
    )

after_name :
    (b b1 b2 : Buffer) (q : State × Buffer)
    → Advanced 0 b b1 × (b1.position ≡ b.position + 1)
    → read_c_string b1 ≡ ok b2
    → Advanced 0 b1 b2
    → Onward b2 q
    → ElementRead b q
after_name b b1 b2 q h e a o =
    let ab =
      Advanced-trans 12 0 b b1 q.1 (omega arith) h.0
        (Advanced-trans 12 0 b1 b2 q.1 (omega arith) a o.0) in
    let (n, k, w) = c_string_ends b1 b2 e in
    (
      ab,
      omega (arith, h.1, a.forward, o.0.forward),
      omega (arith, h.1, h.0.inside),
      inr (n, k, rw (h.1, h.0.bytes) at w),
      o.1,
      o.2,
    )

pub validate_element_info-Safe :
    (id_elem : Option ℕ) (b : Buffer) {k : ℕ}
    → k ≤ 12
    → Fits k b
    → Safe (ElementRead b) (validate_element_info within_obj id_elem b)
unfolding validate_element_info
validate_element_info-Safe id_elem b hk f =
    Safe-bind (λ r. ReadBy 1 0 b (some r)) (ElementRead b) (required (read_char b) _) _
      (Safe-required (λ r. ReadBy 1 0 b (some r)) (ReadBy 1 0 b) (read_char b) _
        (read_char-Safe b hk f) (λ r h. h))
      λ r h.
        let b1 = r.1 in
        let f1 = Advanced-Fits 0 _ b b1 f h.0 in
        let ended : ElementRead b (end_obj, b1) = (
          record {
            bytes = h.0.bytes;
            max_length = h.0.max_length;
            id_elem = h.0.id_elem;
            forward = h.0.forward;
            inside = omega (arith, h.0.inside);
          },
          omega (arith, h.1),
          omega (arith, h.1, h.0.inside),
          inl refl,
          (λ e. cc),
          (λ e. cc),
        ) in
        Safe-if (ElementRead b) (r.0 == 0) (ok (end_obj, b1)) _ ended (
          Safe-bind_eq (Advanced 0 b1) (ElementRead b) (read_c_string b1) _
            (read_c_string-Safe b1 f1)
            λ b2 e a.
              Safe-weaken (Onward b2) (ElementRead b) (element_value r.0 within_obj id_elem b2)
                (λ q o. after_name b b1 b2 q h e a o)
                (element_value-Safe r.0 id_elem b2 (Advanced-Fits 0 0 b1 b2 f1 a)))
