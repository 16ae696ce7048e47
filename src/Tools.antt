-- ===== src/Tools.antt =====
-- tools/: what the processes share.
pub mod Timestamp
pub mod OutputValueFile
pub mod ResilientClient
pub mod IdTranslator
pub mod ResilientServer
pub mod PriorityQueue
