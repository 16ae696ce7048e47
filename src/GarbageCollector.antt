-- ===== src/GarbageCollector.antt =====
-- garbage_collector/: which rows of the table segment are not needed any more, and their removal.
pub mod Evaluate
pub mod Partitions
pub mod Archiver
