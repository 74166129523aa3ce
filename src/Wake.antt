-- ===== src/Wake.antt =====
-- bothy/wake.py: the signed front door, its replay record and its queue.
pub mod Signature
pub mod Server
pub mod Durable
pub mod Signed
mod Examples
