-- ===== src/Service.antt =====
-- internal/service: configuration and the credential service.
pub mod Mode
pub mod Config
pub mod Credentials
