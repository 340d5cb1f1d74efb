-- ===== src/Pow.antt =====
-- internal/pow
pub mod Token
pub mod Difficulty
pub mod Canonical
pub mod Sign
