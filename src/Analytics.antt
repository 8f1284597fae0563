-- ===== src/Analytics.antt =====
-- analytics/: the record of a request and what is done with it.
pub mod Record
pub mod Filters
pub mod Fields
pub mod Trim
pub mod Lines
pub mod Graph
pub mod Mcp
