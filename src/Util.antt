-- ===== src/Util.antt =====
-- src/mongo/util: the parts that keep a state of their own.
pub mod FailPoint
pub mod StringUtils
