-- ===== src/Client/ConnectionString/Tests.antt =====
-- Runs of the operations of src/mongo/client/dbclient.cpp, and the theorems at concrete inputs.
use mongo_cxx_driver.Base.{ℕ, ◌≡◌, refl, arith, some, List, [], ◌∷◌, bytes, map, true}
use mongo_cxx_driver.Base.Int.{pos, negsuc}
use mongo_cxx_driver.Net.HostAndPort.{
  HostAndPort, port, text_eq, int_eq, host_eq, initialize, split_host, rfind, address_of,
  parse_port,
}
use mongo_cxx_driver.Net.HostAndPort.Print.{to_string}
use mongo_cxx_driver.Net.HostAndPort.Print.RoundTrip.{IsPrintable}
use mongo_cxx_driver.Util.StringUtils.{pieces_of}
use mongo_cxx_driver.Client.ConnectionString.{
  ConnectionString, master, set, made, not_verified, of_type, parse_deprecated,
  same_logical_endpoint, invalid_string, Made, ◌>>=◌, finish_init,
}
use mongo_cxx_driver.Client.ConnectionString.RoundTrip.{
  AllListed, with_port, set_of, parse_deprecated-text,
}

-- A host without a port, and one with a colon.
abbrev plain_host : HostAndPort
plain_host = record { host = bytes "a"; port_field = negsuc 0 }

abbrev colon_host : HostAndPort
colon_host = record { host = bytes "::1"; port_field = pos 27018 }

plain-IsPrintable : IsPrintable plain_host
unfolding port
plain-IsPrintable = record {
  named = λ e. cc;
  short = omega arith;
  no_open = omega arith;
  no_close = omega arith;
  number = 27017;
  has_port = refl;
  positive_port = omega arith;
  small_port = omega arith;
}

colon-IsPrintable : IsPrintable colon_host
unfolding port
colon-IsPrintable = record {
  named = λ e. cc;
  short = omega arith;
  no_open = omega arith;
  no_close = omega arith;
  number = 27018;
  has_port = refl;
  positive_port = omega arith;
  small_port = omega arith;
}

abbrev two_hosts : List HostAndPort
two_hosts = plain_host ∷ colon_host ∷ []

hosts-AllListed : AllListed two_hosts
hosts-AllListed = (
  record {
    printable = plain-IsPrintable;
    no_comma = omega arith;
    no_slash = omega arith;
    no_dollar = omega arith;
  },
  (
    record {
      printable = colon-IsPrintable;
      no_comma = omega arith;
      no_slash = omega arith;
      no_dollar = omega arith;
    },
    tt,
  ),
)

abbrev rs : ConnectionString
rs = set_of (bytes "rs") two_hosts

rs_text : rs.text ≡ bytes "rs/a:27017,[::1]:27018"
unfolding finish_init to_string
rs_text = refl

parse_deprecated-text_example :
    (parse_deprecated rs.text ≡ made (set_of (bytes "rs") (map with_port two_hosts)))
    × ((set_of (bytes "rs") (map with_port two_hosts)).text ≡ rs.text)
    × (same_logical_endpoint (set_of (bytes "rs") (map with_port two_hosts)) rs ≡ some true)
parse_deprecated-text_example =
    parse_deprecated-text (bytes "rs") plain_host (colon_host ∷ []) (λ e. cc) (omega arith)
      (omega arith) hosts-AllListed

shown : Made ConnectionString → List ℕ
shown (made c) = c.text
shown r = []

many_without_name : parse_deprecated (bytes "a,b,c") ≡ made invalid_string
unfolding parse_deprecated
many_without_name = refl

two_without_name : shown (parse_deprecated (bytes "a,b")) ≡ bytes "a:27017,b:27017"
unfolding shown to_string parse_deprecated pieces_of initialize split_host rfind address_of
    parse_port
two_without_name = refl

set_without_name : of_type set (bytes "a") [] ≡ not_verified
unfolding of_type pieces_of initialize split_host rfind address_of parse_port
set_without_name = refl

two_masters : of_type master (bytes "a,b") [] ≡ not_verified
unfolding of_type pieces_of initialize split_host rfind address_of parse_port
two_masters = refl

-- The servers of a pair are compared in either order.
swapped :
    (parse_deprecated (bytes "a,b") >>= λ c.
    parse_deprecated (bytes "b,a") >>= λ d. made (same_logical_endpoint c d))
    ≡ made (some true)
unfolding parse_deprecated same_logical_endpoint pieces_of initialize split_host rfind address_of
    parse_port host_eq text_eq int_eq port
swapped = refl
