-- ===== src/Transport.antt =====
-- internal/transport/echo: how a result is answered.
pub mod Answer
pub mod Headers
pub mod Trace
pub mod Rate
