-- ===== src/Rows.antt =====
-- src/ssa/storage: how the repositories write records as rows, and read them back.
pub mod Json
pub mod Goals
pub mod Initiatives
pub mod Outbox
pub mod Emotions
pub mod Contacts
pub mod Observations
pub mod Offline
pub mod InnerLoop
pub mod Events
pub mod Examples
pub mod SelfBeliefs
pub mod Runs
pub mod Proposals
pub mod Experiments
pub mod Memories
