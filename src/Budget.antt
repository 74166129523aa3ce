-- ===== src/Budget.antt =====
-- bothy/budget.py: what a run may spend, reserved before it starts.
pub mod Policy
pub mod Ledger
pub mod Conservation
pub mod Cap
pub mod Gate
pub mod Reaping
mod Examples
