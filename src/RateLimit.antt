-- ===== src/RateLimit.antt =====
-- internal/ratelimit: token buckets and concurrency leases, as model.go states them.
pub mod Keys
pub mod Model
pub mod Refill
pub mod Charge
pub mod Decision
pub mod Allow
pub mod Retry
pub mod Rate
pub mod Leases
mod Tests
