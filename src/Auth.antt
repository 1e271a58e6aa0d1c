-- ===== src/Auth.antt =====
-- pkg/security, internal/server/delegate.go and internal/server/api/auth.go: who may do what.
pub mod Scopes
pub mod Delegation
pub mod Challenges
pub mod Revocation
mod Tests
