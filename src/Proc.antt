-- ===== src/Proc.antt =====
-- bothy/proc.py: the worker processes that a harness started.
pub mod Group
pub mod Registry
pub mod Reaping
pub mod Examples
