-- ===== src/Net/HostAndPort/Print.antt =====
-- `append` and `toString` of src/mongo/util/net/hostandport.cpp.
pub mod Texts
pub mod RoundTrip
use mongo_cxx_driver.Base.{
  ◌||◌, ◌&&◌, bytes, ℕ, zero, suc, ◌+◌, ◌-◌, ◌^◌, ◌≤◌, ◌<◌, ◌≡◌, ◌≢◌, refl, sym, subst, ap, ◌∙◌,
  append_assoc, Bool, true, false, not, List, [], ◌∷◌, ◌++◌, ◌==◌, length, take, drop,
  length-append, if◌then◌else◌, arith, Bool-cases, inl, inr,
}
use mongo_cxx_driver.Base.Int.{ℤ, pos, negsuc}
use mongo_cxx_driver.Number.Decimal.{decimal, AllDecimal, decimal-IsDecimalOf, parse_number-decimal}
use mongo_cxx_driver.Net.HostAndPort.{
  HostAndPort, text_eq, port, npos, find, find_from, rfind, rfind_from, split_host, parse_port,
  address_of, initialize, ok, err,
}

-- `StringBuilder`'s `int`.
unfoldable pub int_text : ℤ → List ℕ
unfolding decimal
int_text (pos n) = decimal n
int_text (negsuc n) = b'-' ∷ decimal (suc n)

-- `append`, and so `toString`.
unfoldable pub to_string : HostAndPort → List ℕ
unfolding find int_text port
to_string h =
    let shown = if not (find h.host b':' == npos) then b'[' ∷ (h.host ++ b']' ∷ []) else h.host in
    shown ++ b':' ∷ int_text (port h)

abbrev starts_with : List ℕ → List ℕ → Bool
starts_with [] s = true
starts_with (p ∷ ps) [] = false
starts_with (p ∷ ps) (c ∷ s) = p == c && starts_with ps s

-- `isLocalHost`.
unfoldable pub is_local_host : HostAndPort → Bool
unfolding text_eq
is_local_host h =
    text_eq h.host (bytes "localhost")
    || starts_with (bytes "127.") h.host
    || text_eq h.host (bytes "::1")
    || text_eq h.host (bytes "anonymous unix socket")
    || starts_with (bytes "/") h.host
