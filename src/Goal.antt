-- ===== src/Goal.antt =====
-- bothy/goal.py: what a goal may ask for, and the check of a run against it.
pub mod Definition
pub mod Check
pub mod Evidence
pub mod Examples
