-- ===== src/Net/HostAndPort/Order.antt =====
-- The order of addresses is a strict total order on host text and effective port.
use Prim.Native.Nat.{lt, eq}
use mongo_cxx_driver.Base.{ℕ, ◌≡◌, refl, sym, ◌∙◌, ◌↔◌, true, false, List, [], ◌∷◌, arith, flip}
use mongo_cxx_driver.Base.Int.{ℤ, eq_of_parts}
use mongo_cxx_driver.Net.HostAndPort.{
  HostAndPort, port, compare_text, text_eq, int_eq, host_lt, host_eq, lt_by,
}

pub compare_text-flip : (a b : List ℕ) → compare_text b a ≡ flip (compare_text a b)
unfolding compare_text
compare_text-flip [] [] = refl
compare_text-flip [] (y ∷ b) = refl
compare_text-flip (x ∷ a) [] = refl
compare_text-flip (x ∷ a) (y ∷ b) = ground (arith, compare_text-flip a b)

pub compare_text-eq : (a b : List ℕ) → compare_text a b ≡ eq → a ≡ b
unfolding compare_text
compare_text-eq [] [] h = refl
compare_text-eq [] (y ∷ b) h = cc
compare_text-eq (x ∷ a) [] h = cc
compare_text-eq (x ∷ a) (y ∷ b) h = ground (arith, compare_text-eq a b)

compare_text_self : (a : List ℕ) → compare_text a a ≡ eq
unfolding compare_text
compare_text_self [] = refl
compare_text_self (x ∷ a) = ground (arith, compare_text_self a)

compare_text_trans :
    (a b c : List ℕ) → compare_text a b ≡ lt → compare_text b c ≡ lt → compare_text a c ≡ lt
unfolding compare_text
compare_text_trans [] [] c h k = cc
compare_text_trans [] (y ∷ b) [] h k = cc
compare_text_trans [] (y ∷ b) (z ∷ c) h k = refl
compare_text_trans (x ∷ a) [] c h k = cc
compare_text_trans (x ∷ a) (y ∷ b) [] h k = cc
compare_text_trans (x ∷ a) (y ∷ b) (z ∷ c) h k = ground (arith, compare_text_trans a b c)

pub text_eq_iff : (a b : List ℕ) → (text_eq a b ≡ true) ↔ (a ≡ b)
unfolding text_eq
text_eq_iff [] [] = (λ e. refl, λ e. refl)
text_eq_iff [] (y ∷ b) = (λ e. cc, λ e. cc)
text_eq_iff (x ∷ a) [] = (λ e. cc, λ e. cc)
text_eq_iff (x ∷ a) (y ∷ b) =
    let (f, g) = text_eq_iff a b in (λ e. ground (arith, f), λ e. ground (arith, g))

int_eq_iff : (a b : ℤ) → (int_eq a b ≡ true) ↔ (a ≡ b)
unfolding int_eq
int_eq_iff a b = ground arith

-- What two addresses that compare equal share.
pub record Same (a b : HostAndPort) : Type 0 where
  pub host : a.host ≡ b.host
  pub port_of : port a ≡ port b

pub host_eq-Same : (a b : HostAndPort) → host_eq a b ≡ true → Same a b
unfolding host_eq
host_eq-Same a b h = record {
  host = (text_eq_iff a.host b.host).0 (ground arith);
  port_of = (int_eq_iff (port a) (port b)).0 (ground arith);
}

pub Same-host_eq : (a b : HostAndPort) → Same a b → host_eq a b ≡ true
unfolding host_eq
Same-host_eq a b s =
    rw ((text_eq_iff a.host b.host).1 s.host, (int_eq_iff (port a) (port b)).1 s.port_of)

pub Same-refl : (a : HostAndPort) → Same a a
Same-refl a = record { host = refl; port_of = refl }

pub Same-sym : (a b : HostAndPort) → Same a b → Same b a
Same-sym a b s = record { host = sym s.host; port_of = sym s.port_of }

pub Same-trans : (a b c : HostAndPort) → Same a b → Same b c → Same a c
Same-trans a b c s t = record { host = s.host ∙ t.host; port_of = s.port_of ∙ t.port_of }

pub host_lt-left : (a b c : HostAndPort) → Same a b → host_lt a c ≡ host_lt b c
unfolding host_lt
host_lt-left a b c s = λ i. lt_by (s.host i) (s.port_of i) c.host (port c)

pub host_lt-right : (a b c : HostAndPort) → Same a b → host_lt c a ≡ host_lt c b
unfolding host_lt
host_lt-right a b c s = λ i. lt_by c.host (port c) (s.host i) (s.port_of i)

host_lt_self : (a : HostAndPort) → host_lt a a ≡ false
unfolding host_lt
host_lt_self a = ground (arith, compare_text_self a.host)

pub host_lt_irrefl : (a b : HostAndPort) → Same a b → host_lt a b ≡ false
host_lt_irrefl a b s = host_lt-left a b b s ∙ host_lt_self b

lt_by-connex :
    (h k : List ℕ) (p q : ℤ) → lt_by h p k q ≡ false → lt_by k q h p ≡ false → (h ≡ k) × (p ≡ q)
lt_by-connex h k p q a b = (
  ground (arith, compare_text-flip h k, compare_text-eq h k),
  ground (arith, compare_text-flip h k, eq_of_parts p q),
)

-- Two addresses neither of which is below the other have the same host and the same port.
pub host_lt_connex : (a b : HostAndPort) → host_lt a b ≡ false → host_lt b a ≡ false → Same a b
unfolding host_lt
host_lt_connex a b h k =
    let (s, t) = lt_by-connex a.host b.host (port a) (port b) h k in
    record { host = s; port_of = t }

lt_by_trans :
    (h k l : List ℕ) (p q r : ℤ)
    → lt_by h p k q ≡ true
    → lt_by k q l r ≡ true
    → lt_by h p l r ≡ true
lt_by_trans h k l p q r a b =
    ground (
      arith,
      compare_text_trans h k l,
      compare_text-eq h k,
      compare_text-eq k l,
      compare_text_self k,
    )

-- `operator<` is transitive.
pub host_lt_trans :
    (a b c : HostAndPort) → host_lt a b ≡ true → host_lt b c ≡ true → host_lt a c ≡ true
unfolding host_lt
host_lt_trans a b c h k = lt_by_trans a.host b.host c.host (port a) (port b) (port c) h k
