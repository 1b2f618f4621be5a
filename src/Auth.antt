-- ===== src/Auth.antt =====
-- internal/auth: the format of API keys.
pub mod Base64
pub mod Key
pub mod Spelling
mod Tests
pub mod Types
pub mod Lru
pub mod Authenticator
pub mod Authenticate
pub mod Calls
pub mod Slots
pub mod Runs
pub mod Fresh
pub mod Judged
pub mod Admitted
mod CacheTests
