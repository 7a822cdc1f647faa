-- ===== src/Bson.antt =====
-- bson/: the binary document format.
pub mod Validate
pub mod Numbers
pub mod Compare
