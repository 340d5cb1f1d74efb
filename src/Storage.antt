-- ===== src/Storage.antt =====
-- internal/storage: the types of store.go, and the stores of internal/storage/memory.
pub mod Types
pub mod Usage
pub mod Counter
