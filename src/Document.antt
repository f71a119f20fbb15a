-- ===== src/Document.antt =====
-- Source/API/CBLDocument.h, CBLRevision.h and CBLDatabaseChange.h, with their implementations: documents and
-- revisions as the application sees them, above the methods of the database.
pub mod Properties
pub mod Body
pub mod Internal
pub mod Attachment
pub mod Change
pub mod Access
pub mod Revisions
pub mod Saving
pub mod Interface
pub mod Methods
