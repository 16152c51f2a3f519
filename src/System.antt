-- ===== src/System.antt =====
-- The whole system on its one database: what every transaction keeps.
pub mod Alarms
pub mod Tables
pub mod Consistent
pub mod Firing
pub mod Working
pub mod Acting
pub mod Replying
pub mod Ingesting
pub mod Delivering
pub mod Steps
pub mod Closing
pub mod Timers
pub mod Critical
pub mod Progress
