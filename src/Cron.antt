-- ===== src/Cron.antt =====
-- bothy/cronspec.py: a cron expression of five fields.
pub mod Field
pub mod Spec
pub mod Search
pub mod Values
mod Examples
