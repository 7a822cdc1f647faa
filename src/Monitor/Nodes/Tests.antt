-- ===== src/Monitor/Nodes/Tests.antt =====
-- Tests of the vector of nodes, src/mongo/client/replica_set_monitor.cpp.
use mongo_cxx_driver.Base.{◌≡◌, refl, List, [], ◌∷◌, arith, if◌then◌else◌}
use mongo_cxx_driver.Base.Int.{pos}
use mongo_cxx_driver.Net.HostAndPort.{HostAndPort, host_eq}
use mongo_cxx_driver.Monitor.Hosts.{count, IsSorted}
use mongo_cxx_driver.Monitor.Nodes.{Node, new_node, hosts_of, find_or_create_node, smoothed}
use mongo_cxx_driver.Monitor.Nodes.Laws.{
  InInt64, smoothed-InInt64, IsSorted-find_or_create_node, count-find_or_create_node,
}

abbrev host_a : HostAndPort
host_a = record { host = b'a' ∷ []; port_field = pos 27017 }

abbrev host_b : HostAndPort
host_b = record { host = b'b' ∷ []; port_field = pos 27017 }

abbrev one_node : List Node
one_node = new_node host_b ∷ []

IsSorted-find_or_create_node_example : IsSorted (hosts_of (find_or_create_node host_a one_node))
IsSorted-find_or_create_node_example = IsSorted-find_or_create_node host_a one_node (tt, tt)

count-find_or_create_node_example :
    count host_a (hosts_of (find_or_create_node host_a one_node))
    ≡ (if host_eq host_a host_a then 1 else count host_a (hosts_of one_node))
count-find_or_create_node_example = count-find_or_create_node host_a host_a one_node (tt, tt)

smoothed-InInt64_example : InInt64 (smoothed (pos 1000) (pos 200))
smoothed-InInt64_example =
    smoothed-InInt64 (pos 1000) (pos 200) (record { non_negative = refl; small = omega arith })
      (omega arith)
