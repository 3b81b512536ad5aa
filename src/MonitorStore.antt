-- ===== src/MonitorStore.antt =====
-- The store of monitoring records: inc/monitor/monitor_data.h, inc/monitor/monitor_store.h and
-- src/monitor/monitor_store.cpp. Each operation runs under the store's mutex.
pub mod Data
pub mod Records
pub mod Store
pub mod KeyOrder
pub mod Lookup
pub mod Update
mod Tests
pub mod Sorted
pub mod Query
pub mod Reports
