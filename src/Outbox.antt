-- ===== src/Outbox.antt =====
-- Delivery of outbox events: `src/modules/outbox/services`.
pub mod Events
pub mod Retry
pub mod Publisher
pub mod Delivery
pub mod Attempts
pub mod Rules
pub mod Batches
pub mod Order
pub mod Consumption
pub mod Records
pub mod Once
mod Tests
