-- ===== src/Net/HostAndPort/Print/RoundTrip.antt =====
-- `initialize` of src/mongo/util/net/hostandport.cpp reads what `toString` writes.
use mongo_cxx_driver.Base.{
  ℕ, suc, ◌+◌, ◌≤◌, ◌<◌, ◌≡◌, ◌≢◌, refl, sym, subst, ap, ◌∙◌, false, List, [], ◌∷◌, ◌++◌, ◌==◌,
  length, drop, length-append, arith, Bool-cases, inl, inr,
}
use mongo_cxx_driver.Base.Int.{pos}
use mongo_cxx_driver.Number.Decimal.{decimal, parse_number-decimal}
use mongo_cxx_driver.Net.HostAndPort.{
  HostAndPort, port, npos, find, split_host, parse_port, address_of, initialize, ok,
}
use mongo_cxx_driver.Net.HostAndPort.Print.{to_string}
use mongo_cxx_driver.Net.HostAndPort.Print.Texts.{
  Lacks, find_from-Lacks, drop-append, plain_text, bracket_text, split_host-plain,
  split_host-bracket,
}

-- What `append` needs of an address for the text to be read back: a host without brackets, and a port.
pub record IsPrintable (h : HostAndPort) : Type 0 where
  pub named : h.host ≢ []
  pub short : length h.host + 2 < npos
  pub no_open : Lacks b'[' h.host
  pub no_close : Lacks b']' h.host
  pub number : ℕ
  pub has_port : port h ≡ pos number
  pub positive_port : 0 < number
  pub small_port : number ≤ 2147483647

-- The port and the rest of `initialize`.
address_of-written :
    (host s : List ℕ) (colon p : ℕ)
    → host ≢ []
    → colon < npos
    → 0 < p
    → p ≤ 2147483647
    → drop (colon + 1) s ≡ decimal p
    → address_of s (host, colon) ≡ ok record { host = host; port_field = pos p }
unfolding address_of parse_port
address_of-written [] s colon p named small low high e = absurd (named refl)
address_of-written (c ∷ cs) s colon p named small low high e =
    ground (arith, parse_number-decimal p high)

initialize_parts :
    (s host : List ℕ) (colon : ℕ) (r : HostAndPort)
    → split_host s ≡ ok (host, colon)
    → address_of s (host, colon) ≡ ok r
    → initialize s ≡ ok r
unfolding initialize
initialize_parts s host colon r e f = rw e f

drop_behind :
    (k : ℕ) (xs : List ℕ) (y : ℕ) (ys : List ℕ) → k ≡ suc (length xs) → drop k (xs ++ y ∷ ys) ≡ ys
drop_behind k xs y ys e = subst (λ i. drop i (xs ++ y ∷ ys) ≡ ys) (sym e) (drop-append xs y ys)

module _ (h : HostAndPort) (w : IsPrintable h) where
  open w use {named, short, no_open, no_close, number, has_port, positive_port, small_port}

  shown_plain : find h.host b':' ≡ npos → to_string h ≡ plain_text h.host number
  unfolding to_string
  shown_plain e = rw (e, has_port) refl

  shown_bracket : (find h.host b':' == npos) ≡ false → to_string h ≡ bracket_text h.host number
  unfolding to_string
  shown_bracket e = rw (e, has_port) refl

  written : HostAndPort
  written = record { host = h.host; port_field = pos number }

  read_plain : find h.host b':' ≡ npos → initialize (plain_text h.host number) ≡ ok written
  unfolding find written
  read_plain e =
      initialize_parts (plain_text h.host number) h.host (length h.host) written
        (split_host-plain h.host number (find_from-Lacks b':' h.host 0 (omega arith) e) no_open
          no_close)
        (address_of-written h.host (plain_text h.host number) (length h.host) number named
          (omega arith) positive_port small_port
          (drop_behind (length h.host + 1) h.host b':' (decimal number) (omega arith)))

  read_bracket : initialize (bracket_text h.host number) ≡ ok written
  unfolding written
  read_bracket =
      initialize_parts (bracket_text h.host number) h.host (length h.host + 2) written
        (split_host-bracket h.host number short no_close)
        (address_of-written h.host (bracket_text h.host number) (length h.host + 2) number named
          short positive_port small_port
          (drop_behind (length h.host + 2 + 1) (b'[' ∷ (h.host ++ b']' ∷ [])) b':' (decimal number)
            (omega (arith, length-append h.host (b']' ∷ [])))))

  -- `initialize` reads what `toString` writes of an address: the host, in brackets where it has a colon, and
  -- the port, where it has none the default one. The host is not empty and has no bracket, and
  -- the port is a positive `int`.
  pub initialize-to_string :
      initialize (to_string h) ≡ ok record { host = h.host; port_field = port h }
  unfolding written
  initialize-to_string =
      let same : ok written ≡ ok record { host = h.host; port_field = port h } =
        ap (λ p. ok record { host = h.host; port_field = p }) (sym has_port) in
      elim (Bool-cases (find h.host b':' == npos)) [
        | inl none ↦
            let e : find h.host b':' ≡ npos = ground (arith, none) in
            ap initialize (shown_plain e) ∙ read_plain e ∙ same
        | inr some ↦ ap initialize (shown_bracket some) ∙ read_bracket ∙ same
      ]
