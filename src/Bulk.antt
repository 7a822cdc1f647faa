-- ===== src/Bulk.antt =====
-- src/mongo/client: write operations, write concerns, write results and the two writers of bulk operations.
pub mod Operation
pub mod Concern
pub mod Result
pub mod Batch
pub mod Writers
mod Tests
