-- ===== src/Tests.antt =====
-- Concrete runs of the modelled programs, and the theorems at inputs where their hypotheses hold.
pub mod DataWriter
pub mod DataWriters
pub mod Defragger
pub mod GarbageCollector
pub mod ResilientClient
pub mod HandoffServer
pub mod HandoffRun
pub mod WebServer
pub mod Versions
pub mod DataReader
pub mod IdTranslator
pub mod DataSlicer
pub mod ZfecSegmenter
pub mod SpaceAccounting
pub mod Archiver
pub mod ResilientServer
pub mod Forwarder
pub mod PriorityQueue
pub mod Retriever
