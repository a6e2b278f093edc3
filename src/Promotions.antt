-- ===== src/Promotions.antt =====
-- Promotions: `src/modules/promotions/services/promotionEngine.service.ts`.
pub mod Rules
pub mod Eligibility
pub mod Engine
pub mod Loop
pub mod Discounts
pub mod Stacking
pub mod Acceptance
mod Tests
