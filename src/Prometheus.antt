-- ===== src/Prometheus.antt =====
-- pumps/prometheus.go: the metrics that the pump keeps, and their exposition.
pub mod Metric
pub mod Exposition
pub mod Counts
