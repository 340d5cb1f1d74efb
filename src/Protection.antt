-- ===== src/Protection.antt =====
-- internal/matcher: which paths want a proof of work.
pub mod Normalize
pub mod Matchers
pub mod Decorated
pub mod Extensions
