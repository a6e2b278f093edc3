-- ===== src/Coupons.antt =====
-- Coupons: `src/modules/coupons/services/couponCalculation.service.ts` and
-- `src/modules/orders/services/orderCoupon.service.ts`.
pub mod Rules
pub mod Preview
pub mod Checkout
pub mod Agreement
mod Tests
