-- ===== src/Learning.antt =====
-- src/ssa/storage/learning_repository.py: SqliteLearningRepository. The children model its methods
-- by table: Runs, Proposals (with evidence and decisions) and Experiments (with outcomes).
pub mod Runs
pub mod Proposals
pub mod Experiments
pub mod Evidence
pub mod Links
pub mod Kept
pub mod Changes
pub mod Calls
pub mod Linked
pub mod Versions
mod Examples
