-- ===== src/Audit.antt =====
-- bothy/audit.py: the hash-chained record of what Bothy did.
pub mod Log
pub mod Tip
pub mod Chunks
pub mod Chain
pub mod Rotation
pub mod Torn
mod Examples
