-- ===== src/Security.antt =====
-- services/security_service.py: the authentication of requests between services.
pub mod Texts
pub mod Replay
pub mod Context
pub mod Decode
pub mod Middleware
mod Tests
