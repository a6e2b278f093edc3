-- ===== src/Tax.antt =====
-- Goods and services tax: `src/modules/tax/services/gstEngine.service.ts`.
pub mod Gst
pub mod Shares
pub mod Totals
mod Tests
