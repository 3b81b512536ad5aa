-- ===== src/TimerManager.antt =====
-- The timers of the monitor's event loop: inc/monitor/timer_types.h, inc/monitor/timer_manager.h,
-- src/monitor/timer_manager.cpp, and the set of callbacks of src/monitor/callback_registry.cpp.
pub mod Types
pub mod Manager
pub mod Order
pub mod Timeout
pub mod Adding
pub mod Checking
pub mod Served
pub mod Turn
mod Tests
