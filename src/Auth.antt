-- ===== src/Auth.antt =====
-- internal/auth: the outcome of a request, from the verification of its token and the verdict of the
-- risk engine.
pub mod Result
pub mod Rate
pub mod Service
pub mod Check
pub mod Usage
pub mod Verdict
pub mod Verify
