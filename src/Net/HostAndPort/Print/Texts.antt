-- ===== src/Net/HostAndPort/Print/Texts.antt =====
-- The parts that `initialize` of src/mongo/util/net/hostandport.cpp cuts a written address into.
use mongo_cxx_driver.Base.{
  ℕ, suc, ◌+◌, ◌<◌, ◌≡◌, ◌≢◌, ◌⊎◌, refl, sym, subst, ap, ◌∙◌, append_assoc, List, [], ◌∷◌, ◌++◌,
  ◌==◌, length, take, drop, length-append, if◌then◌else◌, arith, Bool-cases, inl, inr,
}
use mongo_cxx_driver.Number.Decimal.{decimal, AllDecimal, decimal-IsDecimalOf}
use mongo_cxx_driver.Net.HostAndPort.{npos, find, find_from, rfind, rfind_from, split_host, ok}

-- The byte is not in the text.
abbrev pub Lacks : ℕ → List ℕ → Type 0
Lacks c [] = Unit
Lacks c (x ∷ xs) = (x ≢ c) × Lacks c xs

pub find_from-none : (c : ℕ) (xs : List ℕ) (i : ℕ) → Lacks c xs → find_from c xs i ≡ npos
unfolding find_from
find_from-none c [] i h = refl
find_from-none c (x ∷ xs) i h = ground (arith, find_from-none c xs (i + 1), h.0)

pub find_from-here :
    (c : ℕ) (xs ys : List ℕ) (i : ℕ) → Lacks c xs → find_from c (xs ++ c ∷ ys) i ≡ i + length xs
unfolding find_from
find_from-here c [] ys i h = ground arith
find_from-here c (x ∷ xs) ys i h = ground (arith, find_from-here c xs ys (i + 1), h.0)

rfind_from-none : (c : ℕ) (xs : List ℕ) (i last : ℕ) → Lacks c xs → rfind_from c xs i last ≡ last
unfolding rfind_from
rfind_from-none c [] i last h = refl
rfind_from-none c (x ∷ xs) i last h = ground (arith, rfind_from-none c xs (i + 1) last, h.0)

rfind_from-here :
    (c : ℕ) (xs ys : List ℕ) (i last : ℕ)
    → Lacks c ys
    → rfind_from c (xs ++ c ∷ ys) i last ≡ i + length xs
unfolding rfind_from
rfind_from-here c [] ys i last h = ground (arith, rfind_from-none c ys (i + 1) i)
rfind_from-here c (x ∷ xs) ys i last h =
    rfind_from-here c xs ys (i + 1) (if x == c then i else last) h ∙ omega arith

-- Where a colon is not found there is none, in a text shorter than the largest position.
pub find_from-Lacks :
    (c : ℕ) (xs : List ℕ) (i : ℕ) → i + length xs < npos → find_from c xs i ≡ npos → Lacks c xs
unfolding find_from
find_from-Lacks c [] i h e = tt
find_from-Lacks c (x ∷ xs) i h e = elim (Bool-cases (x == c)) [
  | inl here ↦ absurd (ground (arith, rw here at e))
  | inr there ↦ (ground arith, find_from-Lacks c xs (i + 1) (omega arith) (rw there at e))
]

pub Lacks-append : (c : ℕ) (xs ys : List ℕ) → Lacks c xs → Lacks c ys → Lacks c (xs ++ ys)
Lacks-append c [] ys h k = k
Lacks-append c (x ∷ xs) ys h k = (h.0, Lacks-append c xs ys h.1 k)

pub AllDecimal-Lacks : (c : ℕ) (s : List ℕ) → (c < b'0') ⊎ (b'9' < c) → AllDecimal s → Lacks c s
AllDecimal-Lacks c [] big h = tt
AllDecimal-Lacks c (x ∷ s) (inl low) h =
    (omega (arith, h.0, low), AllDecimal-Lacks c s (inl low) h.1)
AllDecimal-Lacks c (x ∷ s) (inr high) h =
    (omega (arith, h.0, high), AllDecimal-Lacks c s (inr high) h.1)

pub take-append : (xs ys : List ℕ) → take (length xs) (xs ++ ys) ≡ xs
take-append [] ys = refl
take-append (x ∷ xs) ys = ap (λ l. x ∷ l) (take-append xs ys)

pub drop-append : (xs : List ℕ) (y : ℕ) (ys : List ℕ) → drop (suc (length xs)) (xs ++ y ∷ ys) ≡ ys
drop-append [] y ys = refl
drop-append (x ∷ xs) y ys = drop-append xs y ys

module _ (host : List ℕ) (p : ℕ) where
  -- The text without brackets, and with them.
  abbrev pub plain_text : List ℕ
  plain_text = host ++ b':' ∷ decimal p

  abbrev pub bracket_text : List ℕ
  bracket_text = (b'[' ∷ (host ++ b']' ∷ [])) ++ b':' ∷ decimal p

  port_digits : AllDecimal (decimal p)
  port_digits = (decimal-IsDecimalOf p).decimal_digits

  port-Lacks : (c : ℕ) → b'9' < c → Lacks c (decimal p)
  port-Lacks c big = AllDecimal-Lacks c (decimal p) (inr big) port_digits

  pub split_host-plain :
      Lacks b':' host
      → Lacks b'[' host
      → Lacks b']' host
      → split_host plain_text ≡ ok (host, length host)
  unfolding split_host find rfind
  split_host-plain colon no_open no_close =
      let rest_open : Lacks b'[' (b':' ∷ decimal p) =
        ((λ e. absurd (omega arith)), port-Lacks b'[' (omega arith)) in
      let rest_close : Lacks b']' (b':' ∷ decimal p) =
        ((λ e. absurd (omega arith)), port-Lacks b']' (omega arith)) in
      ground (
        arith,
        find_from-none b'[' plain_text 0
            (Lacks-append b'[' host (b':' ∷ decimal p) no_open rest_open),
        find_from-none b']' plain_text 0
            (Lacks-append b']' host (b':' ∷ decimal p) no_close rest_close),
        find_from-here b':' host (decimal p) 0 colon,
        rfind_from-here b':' host (decimal p) 0 npos (port-Lacks b':' (omega arith)),
        take-append host (b':' ∷ decimal p),
      )

  pub split_host-bracket :
      length host + 2 < npos
      → Lacks b']' host
      → split_host bracket_text ≡ ok (host, length host + 2)
  unfolding split_host find rfind find_from
  split_host-bracket small no_close =
      let inner = (host ++ b']' ∷ []) ++ b':' ∷ decimal p in
      let same : host ++ (b']' ∷ (b':' ∷ decimal p)) ≡ inner =
        sym (append_assoc host (b']' ∷ []) (b':' ∷ decimal p)) in
      let close_at : find_from b']' inner 1 ≡ 1 + length host =
        subst (λ l. find_from b']' l 1 ≡ 1 + length host) same
          (find_from-here b']' host (b':' ∷ decimal p) 1 no_close) in
      let inside : take (length host) inner ≡ host =
        subst (λ l. take (length host) l ≡ host) same
          (take-append host (b']' ∷ (b':' ∷ decimal p))) in
      let colon_at : rfind_from b':' inner 1 npos ≡ length host + 2 =
        rfind_from-here b':' (host ++ b']' ∷ []) (decimal p) 1 npos (port-Lacks b':' (omega arith))
        ∙ omega (arith, length-append host (b']' ∷ [])) in
      rw (close_at, colon_at) (ground (arith, inside))
