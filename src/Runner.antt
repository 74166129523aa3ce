-- ===== src/Runner.antt =====
-- bothy/runner.py: what the runner does around a worker.
pub mod Gates
pub mod Run
pub mod Released
pub mod Tables
pub mod Started
mod Examples
