-- ===== src/Replication.antt =====
-- The front end of replications: Source/CBL_ReplicatorSettings.h and .m, and Source/API/CBLReplication.h
-- and .m.
pub mod Settings
pub mod Equality
pub mod Transform
pub mod Front
pub mod Machine
pub mod Reached
pub mod Restart
