-- ===== src/Drove.antt =====
-- bothy/drove.py: what Bothy asks Drove to do.
pub mod Action
pub mod Build
pub mod Safe
pub mod Cli
pub mod Runs
pub mod Watching
pub mod Tick
pub mod Fewer
pub mod Apart
pub mod Bounds
mod Examples
