-- ===== src/Json.antt =====
-- src/mongo/db/json.cpp: the JSON parser.
pub mod Syntax
pub mod Result
pub mod Token
pub mod Text
pub mod Scalar
pub mod Start
pub mod Parser
pub mod Ends
mod Tests
