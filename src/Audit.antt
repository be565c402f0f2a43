-- ===== src/Audit.antt =====
-- src/log/message_log.cpp and include/fix/log/message_log.hpp: the audit log, its file and its queue.
pub mod File
pub mod Writer
pub mod Trace
pub mod Kept
pub mod Flush
pub mod Drains
pub mod Rotation
