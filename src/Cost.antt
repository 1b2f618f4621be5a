-- ===== src/Cost.antt =====
-- internal/cost/estimate.go: the estimated tokens of a request, and the work that they stand for.
pub mod Estimate
pub mod Work
mod Tests
