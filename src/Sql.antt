-- ===== src/Sql.antt =====
-- crates/zapadka-parser: the statements of a script, as the parse tree of libpg_query tells them.
pub mod Values
pub mod Statements
pub mod Classify
pub mod Lines
pub mod Positions
pub mod Parser
pub mod Canonical
pub mod Examples
