-- ===== src/HandoffServer.antt =====
-- handoff_server/: the segments that other nodes keep for this one.
pub mod PendingHandoffs
pub mod Forwarder
pub mod Server
