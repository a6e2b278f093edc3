-- ===== src/Payments.antt =====
-- Payments: `src/modules/payments/services`.
pub mod Gateway
pub mod Provider
pub mod Verification
pub mod Refund
pub mod Signatures
pub mod Confirmation
pub mod RefundOutcome
pub mod RefundBounds
pub mod Lifecycle
pub mod Failure
mod Tests
