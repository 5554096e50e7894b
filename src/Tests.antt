-- ===== src/Tests.antt =====
-- The theorems at concrete inputs, and runs of the modelled code.
pub mod Memory
pub mod Env
pub mod Storage
pub mod Sources
pub mod Collecting
pub mod Reconciling
pub mod Requests
pub mod Serving
pub mod Runs
pub mod Reports
pub mod Running
pub mod Schema
pub mod Logs
pub mod Routing
pub mod Healing
