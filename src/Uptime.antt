-- ===== src/Uptime.antt =====
-- analytics/uptime_data.go: reports of the uptime tests.
pub mod Report
pub mod Aggregate
pub mod Totals
pub mod Sums
pub mod Ready
pub mod Batch
pub mod NilMap
