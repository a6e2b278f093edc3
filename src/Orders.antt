-- ===== src/Orders.antt =====
-- Orders: `src/modules/orders/services`.
pub mod Transitions
pub mod Status
pub mod Updates
pub mod Outcomes
pub mod Cancelling
pub mod Fulfillment
pub mod Confirming
pub mod Idempotency
pub mod Replay
pub mod Recovery
pub mod Once
mod Tests
mod KeyTests
