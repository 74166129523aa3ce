-- ===== src/Poll.antt =====
-- bothy/poll.py: sources that are asked for new items on a schedule.
pub mod Source
pub mod Replay
mod Examples
