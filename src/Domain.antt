-- ===== src/Domain.antt =====
-- src/ssa/domain: the records that the repositories store.
pub mod Jobs
pub mod Goals
pub mod Initiatives
pub mod Outbox
pub mod Emotions
pub mod Contacts
pub mod Observations
pub mod Offline
pub mod InnerLoop
pub mod Events
pub mod SelfBeliefs
pub mod Runs
pub mod Proposals
pub mod Experiments
pub mod Memories
