-- ===== src/Bson/Validate/Reads.antt =====
-- The reads of a buffer stay inside the memory that the caller handed over.
use mongo_cxx_driver.Base.{
  ℕ, zero, suc, ◌+◌, ◌-◌, ◌*◌, ◌%◌, ◌^◌, ◌≤◌, ◌<◌, ◌≡◌, refl, ◌∙◌, Bool, true, false, not, Option,
  none, some, List, [], ◌∷◌, inl, inr, Bool-cases, arith, length, get_elem?-some, drop, length-drop,
  ltb, ◌==◌, if◌then◌else◌,
}
use mongo_cxx_driver.Bson.Validate.{
  Buffer, Outcome, Error, ok, err, fault, out_of_fuel, ◌>>=◌, ◌>>◌, guard, required, not_positive,
  load8, load32, read_char, read_int, memchr, read_c_string, skip_or, read_utf8_string, u64_mod,
}

-- What a reader leaves: no fault, and `P` of the result if there is one.
abbrev pub Safe {ℓ} : {A : Type ℓ} → (A → Type 0) → Outcome A → Type 0
Safe P (ok a) = P a
Safe P (err e) = Unit
Safe P fault = ⊥
Safe P out_of_fuel = ⊥

pub Safe-bind {ℓ κ} :
    {A : Type ℓ} {B : Type κ} (P : A → Type 0) (Q : B → Type 0) (m : Outcome A) (f : A → Outcome B)
    → Safe P m
    → ((a : A) → P a → Safe Q (f a))
    → Safe Q (m >>= f)
Safe-bind P Q (ok a) f h k = k a h
Safe-bind P Q (err e) f h k = tt
Safe-bind P Q fault f h k = h
Safe-bind P Q out_of_fuel f h k = h

-- The same, where the rest needs the equation too.
pub Safe-bind_eq {ℓ κ} :
    {A : Type ℓ} {B : Type κ} (P : A → Type 0) (Q : B → Type 0) (m : Outcome A) (f : A → Outcome B)
    → Safe P m
    → ((a : A) → m ≡ ok a → P a → Safe Q (f a))
    → Safe Q (m >>= f)
Safe-bind_eq P Q (ok a) f h k = k a refl h
Safe-bind_eq P Q (err e) f h k = tt
Safe-bind_eq P Q fault f h k = h
Safe-bind_eq P Q out_of_fuel f h k = h

pub Safe-weaken {ℓ} :
    {A : Type ℓ} (P Q : A → Type 0) (m : Outcome A) → ((a : A) → P a → Q a) → Safe P m → Safe Q m
Safe-weaken P Q (ok a) k h = k a h
Safe-weaken P Q (err e) k h = tt
Safe-weaken P Q fault k h = h
Safe-weaken P Q out_of_fuel k h = h

-- The caller's contract, with the position at most `slack` past the end.
pub record Fits (slack : ℕ) (b : Buffer) : Type 0 where
  pub owned : b.max_length ≤ length b.bytes
  pub small : b.max_length < 2 ^ 63
  pub inside : b.position ≤ b.max_length + slack

-- `b'` is `b` further on.
pub record Advanced (slack : ℕ) (b b' : Buffer) : Type 0 where
  pub bytes : b'.bytes ≡ b.bytes
  pub max_length : b'.max_length ≡ b.max_length
  pub id_elem : b'.id_elem ≡ b.id_elem
  pub forward : b.position ≤ b'.position
  pub inside : b'.position ≤ b.max_length + slack

pub load8-ok : (bytes : List ℕ) (p : ℕ) → p < length bytes → (c : ℕ) × (load8 bytes p ≡ ok c)
unfolding load8
load8-ok bytes p h = let (c, e) = get_elem?-some bytes p h in (c, rw e)

pub load32-ok : (bytes : List ℕ) (p : ℕ) → p + 3 < length bytes → (c : ℕ) × (load32 bytes p ≡ ok c)
load32-ok bytes p h =
    let (a, ea) = load8-ok bytes p (omega arith) in
    let (b, eb) = load8-ok bytes (p + 1) (omega arith) in
    let (c, ec) = load8-ok bytes (p + 2) (omega arith) in
    let (d, ed) = load8-ok bytes (p + 3) (omega arith) in
    (a + 256 * b + 65536 * c + 16777216 * d, unfold load32 in rw (ea, eb, ec, ed))

abbrev pub ReadBy : ℕ → ℕ → Buffer → Option (ℕ × Buffer) → Type 0
ReadBy n slack b none = Unit
ReadBy n slack b (some (c, b')) = Advanced slack b b' × (b'.position ≡ b.position + n)

pub read_char-Safe : (b : Buffer) {k : ℕ} → k ≤ 12 → Fits k b → Safe (ReadBy 1 0 b) (read_char b)
unfolding read_char
read_char-Safe b hk f = elim (Bool-cases (ltb b.max_length ((b.position + 1) % u64_mod))) [
  | inl e ↦ rw e tt
  | inr e ↦
      let (c, ec) = load8-ok b.bytes b.position (ground arith) in
      rw (e, ec)
        (
          record {
            bytes = refl;
            max_length = refl;
            id_elem = refl;
            forward = ground arith;
            inside = ground arith;
          },
          ground arith,
        )
]

pub read_int-Safe : (b : Buffer) {k : ℕ} → k ≤ 12 → Fits k b → Safe (ReadBy 4 0 b) (read_int b)
unfolding read_int
read_int-Safe b hk f = elim (Bool-cases (ltb b.max_length ((b.position + 4) % u64_mod))) [
  | inl e ↦ rw e tt
  | inr e ↦
      let (c, ec) = load32-ok b.bytes b.position (ground arith) in
      rw (e, ec)
        (
          record {
            bytes = refl;
            max_length = refl;
            id_elem = refl;
            forward = ground arith;
            inside = ground arith;
          },
          ground arith,
        )
]

pub Safe-required {ℓ} :
    {A : Type ℓ} (P : A → Type 0) (Q : Option A → Type 0) (m : Outcome (Option A)) (e : Error)
    → Safe Q m
    → ((a : A) → Q (some a) → P a)
    → Safe P (required m e)
Safe-required P Q (ok none) e h k = tt
Safe-required P Q (ok (some a)) e h k = k a h
Safe-required P Q (err x) e h k = tt
Safe-required P Q fault e h k = h
Safe-required P Q out_of_fuel e h k = h

abbrev pub Found : ℕ → Option ℕ → Type 0
Found n none = Unit
Found n (some k) = k < n

pub memchr-Safe : (bytes : List ℕ) (n : ℕ) → n ≤ length bytes → Safe (Found n) (memchr bytes n)
unfolding memchr
memchr-Safe bytes zero h = tt
memchr-Safe [] (suc n) h = elim h [ ]
memchr-Safe (c ∷ bytes) (suc n) h = elim (Bool-cases (c == 0)) [
  | inl e ↦ rw e (omega arith)
  | inr e ↦ rw e (
      Safe-bind (Found n) (Found (suc n)) (memchr bytes n) _ (memchr-Safe bytes n (omega arith))
        (elim [ none ↦ λ _. tt | some k ↦ λ hk. (omega arith) ]))
]

pub read_c_string-Safe : (b : Buffer) → Fits 0 b → Safe (Advanced 0 b) (read_c_string b)
unfolding read_c_string
read_c_string-Safe b f =
    let n : ℕ = (b.max_length + u64_mod - b.position) % u64_mod in
    Safe-bind (λ k. k < n) (Advanced 0 b) (required (memchr (drop b.position b.bytes) n) _) _
      (Safe-required (λ k. k < n) (Found n) (memchr (drop b.position b.bytes) n) _
        (memchr-Safe (drop b.position b.bytes) n
          (omega (arith, length-drop b.position b.bytes, f.owned, f.small, f.inside)))
        (λ k h. h))
      λ k h. record {
        bytes = refl;
        max_length = refl;
        id_elem = refl;
        forward = omega (arith, f.owned, f.small, f.inside);
        inside = omega (arith, f.owned, f.small, f.inside);
      }

-- A length of an `int` is below 2 ^ 31, so that the position cannot wrap.
pub skip_or-Safe :
    (sz : ℕ) (e : Error) (b : Buffer)
    → sz < 2 ^ 32
    → Fits 0 b
    → Safe (Advanced 0 b) (skip_or sz e b)
unfolding skip_or
skip_or-Safe sz e b h f = elim (Bool-cases (ltb ((b.position + sz) % u64_mod) b.max_length)) [
  | inl t ↦ rw t (record {
    bytes = refl;
    max_length = refl;
    id_elem = refl;
    forward = ground arith;
    inside = ground arith;
  })
  | inr t ↦ rw t tt
]

pub Advanced-trans :
    (slack k : ℕ) (a b c : Buffer)
    → k ≤ slack
    → Advanced k a b
    → Advanced slack b c
    → Advanced slack a c
Advanced-trans slack k a b c h f g = record {
  bytes = g.bytes ∙ f.bytes;
  max_length = g.max_length ∙ f.max_length;
  id_elem = g.id_elem ∙ f.id_elem;
  forward = omega (arith, f.forward, g.forward);
  inside = omega (arith, g.inside, f.max_length);
}

pub Advanced-Fits : (slack k : ℕ) (a b : Buffer) → Fits k a → Advanced slack a b → Fits slack b
Advanced-Fits slack k a b f g = record {
  owned = rw (g.bytes, g.max_length) f.owned;
  small = rw g.max_length f.small;
  inside = omega (arith, g.inside, g.max_length);
}

pub Safe-guard {ℓ} :
    {B : Type ℓ} (P : B → Type 0) (t : Bool) (e : Error) (m : Outcome B)
    → (t ≡ true → Safe P m)
    → Safe P (guard t e >> m)
Safe-guard P true e m k = k refl
Safe-guard P false e m k = tt

pub Safe-if {ℓ} :
    {B : Type ℓ} (P : B → Type 0) (t : Bool) (m n : Outcome B)
    → Safe P m
    → Safe P n
    → Safe P (if t then m else n)
Safe-if P true m n h k = h
Safe-if P false m n h k = k

-- `Safe-bind` along a reader: the rest is safe from wherever the reader leaves the buffer.
pub Safe-then :
    (k slack : ℕ) (b : Buffer) (m : Outcome Buffer) (f : Buffer → Outcome Buffer)
    → k ≤ slack
    → Safe (Advanced k b) m
    → ((b' : Buffer) → Advanced k b b' → Safe (Advanced slack b') (f b'))
    → Safe (Advanced slack b) (m >>= f)
Safe-then k slack b m f h s r = Safe-bind (Advanced k b) (Advanced slack b) m f s λ b' a.
    Safe-weaken (Advanced slack b') (Advanced slack b) (f b')
      (λ c g. Advanced-trans slack k b b' c h a g) (r b' a)

pub read_utf8_string-Safe : (b : Buffer) → Fits 0 b → Safe (Advanced 0 b) (read_utf8_string b)
unfolding read_utf8_string
read_utf8_string-Safe b f =
    Safe-bind (λ r. Advanced 0 b r.1) (Advanced 0 b) (required (read_int b) _) _
      (Safe-required (λ r. Advanced 0 b r.1) (ReadBy 4 0 b) (read_int b) _
        (read_int-Safe b {k = 0} (omega arith) f) (λ r h. h.0))
      λ r a. Safe-guard (Advanced 0 b) (not (not_positive r.0)) _ _ λ pos.
        Safe-bind (Advanced 0 b) (Advanced 0 b) (skip_or (r.0 - 1) _ r.1) _
          (Safe-weaken (Advanced 0 r.1) (Advanced 0 b) (skip_or (r.0 - 1) _ r.1)
            (λ c g. Advanced-trans 0 0 b r.1 c (omega arith) a g)
            (skip_or-Safe (r.0 - 1) _ r.1 (ground arith) (Advanced-Fits 0 0 b r.1 f a)))
          λ b2 a2.
            Safe-bind (λ q. Advanced 0 b q.1) (Advanced 0 b) (required (read_char b2) _) _
              (Safe-required (λ q. Advanced 0 b q.1) (ReadBy 1 0 b2) (read_char b2) _
                (read_char-Safe b2 {k = 0} (omega arith) (Advanced-Fits 0 0 b b2 f a2))
                (λ q h. Advanced-trans 0 0 b b2 q.1 (omega arith) a2 h.0))
              λ q a3. Safe-guard (Advanced 0 b) (q.0 == 0) _ _ λ _. a3
