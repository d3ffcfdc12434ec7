-- ===== src/Lib.antt =====
-- HDSC: the lifecycle core of a persistent agent, its ledger, and the frames of its speech
-- service.
--
-- The program keeps its state in SQLite. A worker leases due jobs and runs their handlers;
-- handlers plan initiatives, which become messages of an outbox; a delivery service claims due
-- messages, sends them and appends one event to a ledger for each. Episodes, observations and the
-- state of an inner loop are kept beside them. This library models the tables, the repositories
-- over them, the worker, and the binary protocol of text to speech. Self-beliefs and what is
-- learned from reflection are versioned rows; slash commands and tools are registered by name.
--
-- Parts, with the files that model them and the code:
--   Base              results of calls that may raise, tables and SQL statements, dictionaries,
--                     32-bit integers and their bytes
--   Domain            src/ssa/domain: a record for a model, a data type for an enumeration with the
--                     texts of its members
--   Rows              src/ssa/storage: the parameters of each INSERT and the `_row_to_...` methods;
--                     Rows/<part>/ReadBack states what is read back
--   Jobs              src/ssa/storage/lifecycle_repository.py, ScheduledJobRepository, and under it
--                     what a lease returns (Due, Claims, Lease), two workers (Exclusion), dedup keys
--                     (Dedup), any sequence of calls (Invariant, Calls), retries (Retries) and
--                     progress (Progress)
--   Worker            src/ssa/runtime/lifecycle.py, PersistentLifecycleWorker: register, bootstrap
--                     (Bootstrap), run_due (Run), the jobs that a tick leaves (Settled, Counts) and
--                     those that die and are revived (Backoff, Revived)
--   Outbox, Goals, Initiatives, Emotions, Contacts, Observations, Traces, Offline, InnerLoop, Usage
--                     src/ssa/storage/lifecycle_repository.py, the repository of each part
--   Delivery          src/ssa/services/outbox_service.py, OutboxDeliveryService: deliver_due,
--                     what it does to a message (Marked, Delivered) and to a batch (Batch)
--   Events            src/ssa/domain/events.py and src/ssa/storage/event_repository.py
--   SelfBeliefs       src/ssa/storage/self_belief_repository.py, with the rules of
--                     src/ssa/domain/self_belief.py: its queries (Queries), the chain of versions of a
--                     lineage (Transitions, Lineage, Appending) and any sequence of calls (Calls)
--   Learning          src/ssa/storage/learning_repository.py: runs (Runs), proposals and decisions
--                     (Proposals), experiments and outcomes (Experiments) and evidence (Evidence); how
--                     the tables are linked (Links, Kept, Changes, Calls, Linked) and versioned
--                     (Versions)
--   Snapshots         src/ssa/storage/state_repository.py and relationship_repository.py beside it:
--                     the branches of an append (Statement), any sequence of them (Calls) and the
--                     one current state that they amount to (Log)
--   Memories          src/ssa/storage/memory_repository.py: its queries (Queries), the evidence of a
--                     memory (Evidence, Growth) over any calls (Calls, Provenance)
--   Commands          src/ssa/commands/registry.py: slash commands, the two dictionaries of their
--                     registry (Tokens, Refinement), suggestions (Suggest) and the commands of the
--                     program (Defaults)
--   Tools             src/ssa/tools/registry.py and src/ssa/tools/kernel.py: the registry of tools,
--                     the dispatch of their calls (Dispatch) and their output (Output)
--   Tts               src/ssa/adapters/doubao_tts_protocol.py: marshal and unmarshal (Frames), and
--                     the header, the other parts and the round trip (Frames/Headers, Parts, RoundTrip)
--
-- How the code is translated. A table is the list of its rows in the order of their rowids, and a
-- method takes it and returns what the method returns or raises, with the table it leaves. A row
-- of `scheduled_jobs`, and of the tables of self-beliefs and of learning, is the record that it
-- stands for; a row of another table holds texts in its JSON columns and in the columns of
-- enumerations. The statements of a method are those of the source: the conditions of WHERE, the
-- order of ORDER BY, LIMIT, the row counts, the primary and unique keys, and the foreign keys of
-- an INSERT. A foreign key of an UPDATE names a row that its caller has just written, and is not
-- checked. The models of pydantic are taken as valid: their validators stand in the model only
-- for signals and events. Times and counters are natural numbers.
--
-- Parameters: the clock and the source of ids by the number of calls so far, the handlers of
-- jobs, the adapters of channels and the delivery hook, Python's repr, JSON (dumps and loads),
-- UTF-8, SHA-256, str.strip, str.lstrip and str.casefold, the handlers and argument models of
-- tools, the states of snapshots and their JSON, the vector tables of sqlite-vec, the order and
-- the arithmetic of floating-point numbers, and which rows other tables have.
--
-- Loops are structural: over the rows that a statement selects, over the ids of a lease or a
-- claim, over the leased jobs and over the claimed messages, so that no fuel is needed and every
-- function is total.
--
-- Not modelled: the channels of the delivery service, the other services, the runtimes around the
-- worker, the adapters beside the speech frames, the interfaces, the tools themselves, skills,
-- the storage of traces, configuration, logging and migrations. They do input and output, compute
-- with floating-point numbers, or are planned. The concurrency of two processes is the order of
-- their statements on one table; of transactions, the savepoints of self-beliefs, decisions and
-- memories are modelled.
pub mod Base
pub mod Commands
pub mod Contacts
pub mod Delivery
pub mod Domain
pub mod Emotions
pub mod Events
pub mod Goals
pub mod Initiatives
pub mod InnerLoop
pub mod Jobs
pub mod Learning
pub mod Memories
pub mod Observations
pub mod Offline
pub mod Outbox
pub mod Rows
pub mod SelfBeliefs
pub mod Snapshots
pub mod Tools
pub mod Traces
pub mod Tts
pub mod Usage
pub mod Worker
