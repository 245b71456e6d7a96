-- ===== src/Reader.antt =====
-- The reader of stored data: src/readCassandrafast.
pub mod Compress
pub mod Response
pub mod Request
pub mod Client
pub mod Server
