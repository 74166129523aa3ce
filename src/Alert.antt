-- ===== src/Alert.antt =====
-- bothy/alert.py: telling a person that something went wrong.
pub mod Chunks
pub mod Pieces
pub mod Limit
pub mod Dedup
pub mod Quiet
pub mod Sink
pub mod Examples
