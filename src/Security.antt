-- ===== src/Security.antt =====
-- security.go: the report of the security events that the server sends.
pub mod Types
pub mod Report
pub mod Invariant
pub mod Sound
