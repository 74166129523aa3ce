-- ===== src/Schedule.antt =====
-- bothy/schedule.py: the jobs that start work by the clock.
pub mod Reply
pub mod Job
pub mod Store
pub mod Firing
pub mod Due
pub mod Once
pub mod Interval
pub mod Door
pub mod Hours
pub mod Calendar
pub mod Examples
