-- ===== src/DatabaseApi.antt =====
-- Source/API/CBLDatabase.h: the documents of a database, its local documents, and the validation of revisions.
pub mod Documents
pub mod Instances
pub mod Validation
pub mod Local
pub mod Verdict
