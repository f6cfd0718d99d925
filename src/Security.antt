-- ===== src/Security.antt =====
-- backend/security.
pub mod SecretPaths
mod Tests
