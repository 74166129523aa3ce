-- ===== src/Pool.antt =====
-- bothy/pool.py: who may start, and who has to wait.
pub mod Outcomes
pub mod Admission
pub mod Lanes
pub mod Invariant
pub mod History
pub mod Door
pub mod Recovery
mod Examples
