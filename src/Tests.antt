-- ===== src/Tests.antt =====
-- Runs on small inputs, and the theorems applied to them.
pub mod Sample
mod State
mod Config
mod Resolve
mod Rollup
mod Scheduler
mod Store
mod Alerts
pub mod Discovery
mod Discover
mod Directory
mod Snmp
mod Net
mod Platforms
mod Apps
pub mod Forecast
mod Maintenance
mod Windows
mod Ssh
mod Web
pub mod Proposals
mod Scan
mod Script
