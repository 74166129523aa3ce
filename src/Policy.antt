-- ===== src/Policy.antt =====
-- bothy/policy.py: the answer to each approval request of a run.
pub mod Rules
pub mod Parse
pub mod Evidence
pub mod Decision
mod Examples
