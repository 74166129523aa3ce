-- ===== src/Retention.antt =====
-- bothy/retention.py: the sweep of the wake queue.
pub mod Sweep
mod Examples
