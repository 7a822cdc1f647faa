-- ===== src/Net/HostAndPort/Tests.antt =====
-- Tests of src/mongo/util/net/hostandport.cpp.
use mongo_cxx_driver.Base.{arith, ℕ, ◌≡◌, refl, true, false, List, [], ◌∷◌}
use mongo_cxx_driver.Base.Int.{pos, negsuc}
use mongo_cxx_driver.Net.HostAndPort.{
  HostAndPort, ok, host_lt, compare_text, port, initialize, split_host, find, rfind, address_of,
  parse_port,
}
use mongo_cxx_driver.Number.Parse.{
  parse_number, extract_base, extract_sign, accumulate, digit_value,
}
use mongo_cxx_driver.Net.HostAndPort.Order.{Same, host_lt_trans, host_lt_connex}
use mongo_cxx_driver.Net.HostAndPort.Print.{to_string}
use mongo_cxx_driver.Net.HostAndPort.Print.RoundTrip.{IsPrintable, initialize-to_string}
use mongo_cxx_driver.Number.Decimal.{decimal}

-- `[::1]:27018`.
abbrev loopback : List ℕ
loopback = b'[' ∷ b':' ∷ b':' ∷ b'1' ∷ b']' ∷ b':' ∷ b'2' ∷ b'7' ∷ b'0' ∷ b'1' ∷ b'8' ∷ []

abbrev loopback_host : HostAndPort
loopback_host = record { host = b':' ∷ b':' ∷ b'1' ∷ []; port_field = pos 27018 }

loopback-parsed : initialize loopback ≡ ok loopback_host
unfolding initialize split_host find rfind address_of parse_port parse_number extract_base
    extract_sign accumulate digit_value
loopback-parsed = refl

loopback_written : to_string loopback_host ≡ loopback
unfolding to_string decimal
loopback_written = refl

loopback-IsPrintable : IsPrintable loopback_host
unfolding port
loopback-IsPrintable = record {
  named = λ e. cc;
  short = omega arith;
  no_open = omega arith;
  no_close = omega arith;
  number = 27018;
  has_port = refl;
  positive_port = omega arith;
  small_port = omega arith;
}

initialize-to_string_example :
    initialize (to_string loopback_host)
    ≡ ok record { host = loopback_host.host; port_field = port loopback_host }
initialize-to_string_example = initialize-to_string loopback_host loopback-IsPrintable

-- The host `a` without a port, with the default port, and with the next one.
abbrev bare : HostAndPort
bare = record { host = b'a' ∷ []; port_field = negsuc 0 }

abbrev default : HostAndPort
default = record { host = b'a' ∷ []; port_field = pos 27017 }

abbrev next : HostAndPort
next = record { host = b'a' ∷ []; port_field = pos 27018 }

abbrev other : HostAndPort
other = record { host = b'b' ∷ []; port_field = negsuc 0 }

bare-next : host_lt bare next ≡ true
unfolding host_lt compare_text port
bare-next = refl

next-other : host_lt next other ≡ true
unfolding host_lt compare_text port
next-other = refl

host_lt_trans_example : host_lt bare other ≡ true
host_lt_trans_example = host_lt_trans bare next other bare-next next-other

bare-default : host_lt bare default ≡ false
unfolding host_lt compare_text port
bare-default = refl

default-bare : host_lt default bare ≡ false
unfolding host_lt compare_text port
default-bare = refl

host_lt_connex_example : Same bare default
host_lt_connex_example = host_lt_connex bare default bare-default default-bare
