-- ===== src/Collector.antt =====
-- src/lib/server/subprocess-manager.ts: the process that collects events and metrics, and what the server
-- does with its messages. The module's variables are the record `Collector`; the database, the
-- notifications and the emitter are the effects that a handler returns, in order.
pub mod Reader
pub mod State
pub mod Dedup
pub mod Health
pub mod Effects
pub mod Disk
pub mod Relevance
pub mod Events
pub mod Environments
pub mod Worker
pub mod Messages
pub mod ReaderLaws
pub mod SurplusLaws
pub mod DedupLaws
pub mod HealthLaws
pub mod EventsLaws
pub mod DiskLaws
pub mod EnvironmentsLaws
pub mod WorkerLaws
pub mod OrderlyLaws
pub mod ProcessLaws
pub mod MessagesLaws
pub mod EventTests
mod Tests
