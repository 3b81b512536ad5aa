-- ===== src/MonitorWire.antt =====
-- The datagrams of monitoring records: inc/monitor/monitor_wire.h, inc/monitor/monitor_wire_detail.h
-- and src/monitor/monitor_wire.cpp.
pub mod Types
pub mod Time
pub mod V1
pub mod V2
pub mod Codec
pub mod V2Layout
pub mod V2Header
pub mod V2Roundtrip
pub mod V1Roundtrip
mod Tests
pub mod Size
