-- ===== src/AlarmProtocol.antt =====
-- The envelope of a reliable alarm: inc/monitor/alarm_protocol.h and src/monitor/alarm_protocol.cpp.
-- Bytes are numbers below 256 and a buffer is a list of them. A pointer with its size is an `Input`,
-- and whether an allocation succeeds is an argument of the function that allocates.
pub mod Offset
pub mod Types
pub mod Fields
pub mod Checksum
pub mod Frame
pub mod FieldLaws
pub mod ChecksumLaws
pub mod Layout
pub mod Roundtrip
pub mod Canonical
pub mod Reencode
pub mod Detect
pub mod Prefix
pub mod Tests
