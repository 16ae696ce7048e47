-- ===== src/WebServer.antt =====
-- web_server/: the front end.
pub mod Listmatcher
pub mod Pieces
pub mod DataSlicer
pub mod ZfecSegmenter
pub mod Archiver
pub mod LocalDatabaseUtil
pub mod Retriever
pub mod DataWriters
