-- ===== src/Aggregate.antt =====
-- analytics/aggregate.go, aggregate_mcp.go, graph_record.go, mcp_record.go: summing up records.
pub mod Counter
pub mod Keys
pub mod State
pub mod Timestamp
pub mod Cases
pub mod Increment
pub mod Conflict
pub mod Change
pub mod Data
pub mod Codes
pub mod Named
pub mod Dimensions
pub mod Grouped
pub mod Graph
pub mod Mcp
