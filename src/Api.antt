-- ===== src/Api.antt =====
-- internal/api: the HTTP layer.
pub mod HostPort
pub mod RateLimiter
pub mod Types
pub mod Response
pub mod Writer
pub mod Server
pub mod Middleware
pub mod Handlers
pub mod Demo
pub mod Routes
