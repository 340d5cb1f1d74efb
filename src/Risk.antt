-- ===== src/Risk.antt =====
-- internal/risk
pub mod Target
pub mod Types
pub mod Matcher
pub mod Compile
pub mod Engine
pub mod Pending
pub mod Counter
