-- ===== src/Trajectory.antt =====
-- Trajectory matching: backend/app/quality/trajectory_match.py.
pub mod Dag
pub mod Reference
pub mod Match
pub mod Tests
