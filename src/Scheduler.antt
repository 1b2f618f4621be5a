-- ===== src/Scheduler.antt =====
-- internal/scheduler: who may serve a request, and the strategies that choose.
pub mod Rotor
pub mod Candidates
pub mod Strategies
pub mod Kept
pub mod Choice
pub mod Fairness
pub mod Least
pub mod Sample
mod Tests
