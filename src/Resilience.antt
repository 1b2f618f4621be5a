-- ===== src/Resilience.antt =====
-- internal/resilience: circuit breakers, the retry budget, the admission queue and the global cap.
pub mod Window
pub mod Breaker
pub mod Breakers
pub mod Budget
pub mod Admission
pub mod Queue
mod Tests
mod LoadTests
