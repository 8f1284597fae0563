-- ===== src/Pump.antt =====
-- main.go, pumps/common.go and pumps/pump.go: from the values of the store to what each pump writes.
pub mod Config
pub mod Filter
pub mod Purge
pub mod Writing
pub mod Life
pub mod Env
pub mod Secrets
