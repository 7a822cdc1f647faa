-- ===== src/Net/HostAndPort/Named.antt =====
-- An address that parses has a host part.
use mongo_cxx_driver.Base.{ℕ, ◌≡◌, ◌≢◌, List, [], ◌∷◌, if◌then◌else◌}
use mongo_cxx_driver.Base.Int.{ℤ}
use mongo_cxx_driver.Number.Parse
use mongo_cxx_driver.Net.HostAndPort.{
  HostAndPort, Result, ok, err, ◌>>=◌, split_host, parse_port, initialize, address_of, empty_host,
}

address_of-named :
    (s host : List ℕ) (colon : ℕ) (port : Result ℤ) (h : HostAndPort)
    → (if Parse.is_empty host
        then err empty_host
        else (port >>= λ p. ok (record { host = host; port_field = p })))
      ≡ ok h
    → h.host ≢ []
address_of-named s [] colon port h e = cc
address_of-named s (c ∷ cs) colon (ok p) h e = λ k. cc
address_of-named s (c ∷ cs) colon (err x) h e = cc

split-named :
    (s : List ℕ) (r : Result (List ℕ × ℕ)) (h : HostAndPort)
    → (r >>= address_of s) ≡ ok h
    → h.host ≢ []
unfolding address_of
split-named s (ok (host, colon)) h e = address_of-named s host colon (parse_port s colon) h e
split-named s (err x) h e = cc

-- `initialize` accepts no address with an empty host part.
pub initialize-named : (s : List ℕ) (h : HostAndPort) → initialize s ≡ ok h → h.host ≢ []
unfolding initialize
initialize-named s h e = split-named s (split_host s) h e
