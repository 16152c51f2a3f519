-- ===== src/Notifier.antt =====
-- Delivery: cloud/notifications and cloud/notifier_worker.
pub mod Loop
pub mod Provider
pub mod Chain
pub mod Relay
pub mod Claims
pub mod Retries
pub mod Delivery
