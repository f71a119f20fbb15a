-- ===== src/Tests.antt =====
-- Runs of the models of Source/CBL_RevID.m and Source/CBL_SQLiteStorage.m, and the theorems at
-- concrete inputs.
pub mod Ids
pub mod Trees
pub mod Puts
pub mod Purges
pub mod Reads
pub mod Rows
pub mod Locals
pub mod Replications
pub mod Sequences
pub mod Dates
pub mod Diffs
pub mod Statuses
pub mod Queries
pub mod Managers
pub mod Revisions
pub mod Batches
pub mod Caches
pub mod Documents
pub mod Attachments
