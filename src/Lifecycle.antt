-- ===== src/Lifecycle.antt =====
-- bothy/lifecycle.py: the run ledger, which tells a crash from a restart.
pub mod Ledger
pub mod Deaths
pub mod Lock
pub mod Examples
