-- ===== src/RateLimit.antt =====
-- bothy/ratelimit.py: token buckets, for the door that faces the internet.
pub mod Bucket
pub mod Limiter
pub mod Table
mod Examples
