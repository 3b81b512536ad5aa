-- ===== src/MonitorPolicy.antt =====
-- The alarm policies of inc/monitor/monitor_policy.h and src/monitor/monitor_policy.cpp.
pub mod Policy
pub mod Edges
pub mod Window
pub mod Duration
mod Tests
