-- ===== src/Gateway.antt =====
-- internal/gateway: how a request gets its worker.
pub mod Router
pub mod Reserve
pub mod Route
pub mod Release
pub mod Snapshot
pub mod Views
pub mod Retry
pub mod Retryable
mod Tests
mod ViewTests
mod RetryTests
