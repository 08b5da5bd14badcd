-- ===== src/Store.antt =====
-- The SQLite store: apps/host_agent/src/storage/sqlite_store.cpp over apps/host_agent/sql/schema.sql.
pub mod Json
pub mod Tables
pub mod Statements
pub mod Connection
pub mod Bindings
pub mod Writes
pub mod Atomic
pub mod Transaction
pub mod Effects
pub mod Persist
pub mod Rows
pub mod Queries
pub mod LatestGpus
pub mod Opening
pub mod Snapshot
pub mod Healthy
pub mod Timeline
pub mod Direct
pub mod Threads
pub mod RuntimeSamples
pub mod Consistent
