-- ===== src/WriteScheduler.antt =====
-- The write queue of a connection: inc/common/net/write_scheduler.h and
-- src/common/net/write_scheduler.cpp. An operation returns the new state and the calls that it makes
-- of hooks, callbacks and the socket, in order. All run in the thread of one event loop.
pub mod Types
pub mod Queue
pub mod Writable
pub mod Accounts
pub mod Balance
pub mod Round
pub mod Owed
pub mod Once
pub mod RoundOnce
pub mod Trace
mod Tests
