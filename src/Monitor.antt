-- ===== src/Monitor.antt =====
-- src/mongo/client/replica_set_monitor.cpp: discovery of the members of a replica set.
pub mod Hosts
pub mod Reply
pub mod Nodes
pub mod Select
pub mod Scan
