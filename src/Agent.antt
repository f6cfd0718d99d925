-- ===== src/Agent.antt =====
-- backend/agent.
pub mod Context
mod Tests
