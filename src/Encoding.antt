-- ===== src/Encoding.antt =====
-- src/mongo/util/: bytes as text.
pub mod Base64
