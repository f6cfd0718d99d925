-- ===== src/Document.antt =====
-- Documents with revisions, sections and a folder tree: backend/document.
pub mod Model
pub mod Repository
pub mod Sections
pub mod Results
pub mod Actions
pub mod Service
pub mod Revise
pub mod Gate
pub mod History
pub mod Replay
pub mod Again
pub mod Overwrite
pub mod Conflict
mod Tests
