-- ===== src/Attempts.antt =====
-- The attempt journal of backend/app/harnesses/attempts.py.
pub mod Model
pub mod Store
pub mod Ingest
pub mod Create
pub mod Control
pub mod Sound
pub mod History
pub mod Tests
