-- ===== src/DataReader.antt =====
-- data_reader/: the process that retrieves the segments of a node.
pub mod Reader
pub mod Handlers
