-- ===== src/Persistence.antt =====
-- How a database lies in its files: database.include/write.c, read.c, and the parts of threads.c
-- and database_create.c that use them.
pub mod Attributes
pub mod Emitting
pub mod Loading
pub mod Schema
pub mod Writing
pub mod Reading
pub mod Operations
pub mod Loads
pub mod Log
pub mod DataFile
pub mod Startup
