-- ===== src/Store/File.antt =====
-- src/store/file_store.cpp and include/fix/store/file_store.hpp.
pub mod Name
pub mod Disk
pub mod Sequences
pub mod Log
pub mod State
pub mod Frames
pub mod Lifecycle
pub mod Lawful
pub mod Mirror
pub mod Torn
pub mod Recovery
pub mod Closing
pub mod Durable
