-- ===== src/Execution.antt =====
-- backend/execution.
pub mod Permissions
mod Tests
