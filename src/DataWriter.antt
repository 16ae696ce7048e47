-- ===== src/DataWriter.antt =====
-- data_writer/: the process that stores the segments of a node.
pub mod Sql
pub mod ValueFile
pub mod Writer
pub mod Message
pub mod Handlers
