-- ===== src/Loops.antt =====
-- The loop detector over execution traces: backend/app/quality/trace_loops.py.
pub mod Keys
pub mod Runs
pub mod Tandem
pub mod Detect
pub mod Tests
