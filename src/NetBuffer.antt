-- ===== src/NetBuffer.antt =====
-- The receive and send buffer of a connection: inc/common/net/buffer.h and
-- src/common/net/buffer.cpp.
pub mod Buffer
pub mod Content
pub mod Refine
pub mod Transfers
pub mod Spare
pub mod Spec
pub mod Queue
mod Tests
