-- ===== src/Discovery.antt =====
-- watchpost/discovery.py: what a scan may do.
pub mod Finding
pub mod Gates
pub mod Lockout
pub mod Proposals
pub mod Probes
pub mod Discover
pub mod Render
pub mod Script
pub mod Scan
pub mod Targets
