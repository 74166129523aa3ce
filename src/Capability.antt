-- ===== src/Capability.antt =====
-- bothy/capability.py: what a run is given.
pub mod Profile
pub mod Grants
pub mod Tools
pub mod Examples
