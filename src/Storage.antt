-- ===== src/Storage.antt =====
-- Source/CBL_SQLiteStorage.m: the revision trees in the SQLite tables `docs` and `revs`.
pub mod Table
pub mod Docs
pub mod Queries
pub mod Prune
pub mod Insert
pub mod Put
pub mod Rows
pub mod Winning
pub mod NewWinner
pub mod Pruning
pub mod WellFormed
pub mod Steps
pub mod Preserved
pub mod PutPreserved
pub mod Conflicts
pub mod Purge
pub mod PurgeLists
pub mod PurgeScan
pub mod PurgeLeaves
pub mod Purging
pub mod Documents
pub mod Changes
pub mod Local
pub mod Protocol
pub mod Sqlite
pub mod Missing
pub mod Ancestors
pub mod LocalRows
pub mod LocalReads
pub mod LocalConflicts
pub mod Divergences
pub mod Contract
