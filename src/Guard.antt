-- ===== src/Guard.antt =====
-- internal/middleware/guard.go
pub mod Request
pub mod Config
mod Examples
pub mod RateLimiter
pub mod IpAccess
pub mod BruteForce
