-- ===== src/Workflow.antt =====
-- Review and archiving of a finished task: backend/app/harnesses/workflow.py, with the completion of
-- parent tasks from backend/app/orchestrator/engine.py.
pub mod World
pub mod Parent
pub mod Locks
pub mod Stages
pub mod Continue
pub mod Ended
pub mod Settle
pub mod Holds
pub mod Invariant
pub mod Promises
mod Tests
