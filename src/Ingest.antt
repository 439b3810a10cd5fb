-- ===== src/Ingest.antt =====
-- backend/ingest.py: the complete replacement of the current-state tables, and the run around it.
pub mod Rows
pub mod Commit
pub mod Replace
pub mod Run
pub mod Tests
