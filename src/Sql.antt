-- ===== src/Sql.antt =====
-- The SQL pumps.
pub mod Shards
pub mod Records
pub mod Rows
pub mod Aggregates
pub mod Kinds
pub mod Uptime
pub mod Indexes
pub mod Migration
