-- ===== src/Tests.antt =====
-- Runs of the model on small inputs, and the theorems at inputs that meet their hypotheses.
mod Samples
mod Analytics
mod Aggregate
mod Dimensions
mod Uptime
mod Serializer
mod Codes
mod Lines
mod Pump
mod Purge
mod Storage
mod Mongo
mod Sql
mod Main
mod Splunk
mod Prometheus
mod Aggregates
mod Config
