-- ===== src/Monitor/Reply/Tests.antt =====
-- Tests of the parser of isMaster replies.
use mongo_cxx_driver.Base.{◌≡◌, refl, true, false, some, [], ◌∷◌}
use mongo_cxx_driver.Base.Int.{pos, negsuc}
use mongo_cxx_driver.Net.HostAndPort.{
  HostAndPort, initialize, split_host, find, rfind, address_of, parse_port, host_eq, text_eq,
  host_lt, compare_text,
}
use mongo_cxx_driver.Monitor.Hosts.{set_insert, contains, insert_sorted}
use mongo_cxx_driver.Monitor.Reply.{Document, IsMasterReply, parse, primary_of, to_host, add_hosts}
use mongo_cxx_driver.Monitor.Reply.WellFormed.{IsParsed, parse-IsParsed}

abbrev sender : HostAndPort
sender = record { host = b'a' ∷ []; port_field = pos 27017 }

-- A reply that lists its two members out of order.
abbrev secondary_reply : Document
secondary_reply = record {
  ok = true;
  set_name = b'r' ∷ b's' ∷ [];
  hidden = false;
  secondary = true;
  is_master = false;
  primary = b'b' ∷ [];
  hosts = some (b'b' ∷ []) ∷ some (b'a' ∷ []) ∷ [];
  passives = [];
  tags = [];
}

abbrev parsed_secondary : IsMasterReply
parsed_secondary = record {
  ok = true;
  set_name = b'r' ∷ b's' ∷ [];
  is_master = false;
  secondary = true;
  hidden = false;
  primary = record { host = b'b' ∷ []; port_field = negsuc 0 };
  normal_hosts =
      record { host = b'a' ∷ []; port_field = negsuc 0 }
      ∷ record { host = b'b' ∷ []; port_field = negsuc 0 }
      ∷ [];
  tags = [];
  host = sender;
  latency_micros = pos 1000;
}

parsed : parse sender (pos 1000) secondary_reply ≡ some parsed_secondary
unfolding parse primary_of to_host initialize split_host find rfind address_of parse_port add_hosts
    set_insert contains insert_sorted host_eq text_eq host_lt compare_text
parsed = refl

parse-IsParsed_example : IsParsed sender (pos 1000) parsed_secondary × (secondary_reply.ok ≡ true)
parse-IsParsed_example = parse-IsParsed sender (pos 1000) secondary_reply parsed_secondary parsed
