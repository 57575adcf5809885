-- ===== src/Scheduler.antt =====
-- core/include/zamt/core/Scheduler.h and core/src/Scheduler.cpp.
pub mod Tasks
pub mod Source
pub mod Registry
pub mod Api
pub mod Locks
pub mod Handover
pub mod Wakeups
pub mod System
mod Tests
