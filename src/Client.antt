-- ===== src/Client.antt =====
-- src/mongo/client: what a client connects to.
pub mod ConnectionString
