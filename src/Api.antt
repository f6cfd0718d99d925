-- ===== src/Api.antt =====
-- backend/api.
pub mod Records
pub mod Pagination
pub mod Analyses
pub mod Sse
mod Tests
mod AnalysisTests
