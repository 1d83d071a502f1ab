-- ===== src/Session.antt =====
-- launcher/internal/session/session.go: bootstrap tokens, sessions, CSRF, the writer role, quotas.
pub mod Types
pub mod Table
pub mod Operations
pub mod Quota
pub mod Runs
pub mod Invariant
pub mod Tokens
pub mod Reaping
pub mod Writer
