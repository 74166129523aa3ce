-- ===== src/Daemon.antt =====
-- bothy/daemon.py: what the daemon does with the wakes in its queue.
pub mod Queue
pub mod Prompt
pub mod Pass
pub mod Report
pub mod Drain
mod Examples
pub mod Rows
pub mod Others
pub mod Waits
pub mod Ends
pub mod Own
pub mod Loop
pub mod Liveness
pub mod Runs
pub mod Shows
pub mod Asked
pub mod Order
