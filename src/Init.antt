-- ===== src/Init.antt =====
-- src/mongo/base: the initializers and the order in which they run.
pub mod Graph
pub mod Execute
mod Tests
