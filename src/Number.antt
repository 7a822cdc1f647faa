-- ===== src/Number.antt =====
-- base/: numbers in text.
pub mod Parse
pub mod Decimal
