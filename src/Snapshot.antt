-- ===== src/Snapshot.antt =====
-- Snapshots of a repository: backend/snapshot.
pub mod PosixPath
pub mod Scanner
mod Tests
