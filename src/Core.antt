-- ===== src/Core.antt =====
-- include/fix/core: the value types that every other part of the engine uses.
pub mod Types
pub mod Tags
pub mod MsgTypes
pub mod RejectReason
pub mod Message
