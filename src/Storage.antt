-- ===== src/Storage.antt =====
-- Object keys and the in-memory object storage: backend/storage.
pub mod Keys
pub mod Memory
