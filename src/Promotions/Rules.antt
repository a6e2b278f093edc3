-- ===== src/Promotions/Rules.antt =====
-- The rows of `prisma/schema/promotion` and the types of
-- `src/modules/promotions/types/promotion.types.ts`, without names and texts. Amounts are in
-- hundredths, percentages in hundredths of a percent, times of day in minutes after midnight (UTC).
use meeo_server.Base.{ℕ, Bool, true, false, Option, List}

pub data PromotionStatus : Type 0 where
  draft scheduled active paused expired archived : PromotionStatus

abbrev pub is_active_promotion : PromotionStatus → Bool
is_active_promotion PromotionStatus.active = true
is_active_promotion _ = false

pub data PromotionKind : Type 0 where
  percentage fixed_discount buy_x_get_y free_shipping product_discount : PromotionKind
  category_discount brand_discount flash_sale : PromotionKind

pub data StackingRule : Type 0 where
  exclusive stackable_with_others stackable_with_coupons : StackingRule

abbrev pub is_exclusive : StackingRule → Bool
is_exclusive StackingRule.exclusive = true
is_exclusive _ = false

pub data Segment : Type 0 where
  all first_time_buyer vip returning registered : Segment

abbrev pub is_first_time : Segment → Bool
is_first_time Segment.first_time_buyer = true
is_first_time _ = false

abbrev pub is_registered : Segment → Bool
is_registered Segment.registered = true
is_registered _ = false

abbrev pub is_returning : Segment → Bool
is_returning Segment.returning = true
is_returning _ = false

abbrev pub is_vip : Segment → Bool
is_vip Segment.vip = true
is_vip _ = false

pub record Promotion : Type 0 where
  pub id : ℕ
  pub kind : PromotionKind
  pub status : PromotionStatus
  pub priority : ℕ
  pub is_stackable : Bool
  pub stacking_rule : StackingRule
  pub segment : Segment
  pub first_order_only : Bool
  pub discount_value : Option ℕ
  pub max_discount_amount : Option ℕ
  pub min_order_subtotal : Option ℕ
  pub min_quantity : Option ℕ
  pub buy_x_quantity : Option ℕ
  pub get_y_quantity : Option ℕ
  pub get_y_discount_percentage : Option ℕ
  pub starts_at : Option ℕ
  pub ends_at : Option ℕ
  pub time_of_day_start : Option ℕ
  pub time_of_day_end : Option ℕ
  pub days_of_week : List ℕ
  pub total_usage_limit : Option ℕ
  pub current_usage_count : ℕ
  pub target_products : List ℕ
  pub target_categories : List ℕ
  pub target_brands : List ℕ
  pub excluded_products : List ℕ
  pub excluded_categories : List ℕ

pub record Item : Type 0 where
  pub product : ℕ
  pub variant : Option ℕ
  pub category : Option ℕ
  pub brand : Option ℕ
  pub unit_price : ℕ
  pub quantity : ℕ
  pub line_total : ℕ

pub record Cart : Type 0 where
  pub user : Option ℕ
  pub segment : Option Segment
  pub order_count : Option ℕ
  pub subtotal : ℕ
  pub shipping_fee : Option ℕ
  pub items : List Item

-- `ItemDiscountAllocation`
pub record Allocation : Type 0 where
  pub product : ℕ
  pub variant : Option ℕ
  pub original_line_total : ℕ
  pub discount : ℕ
  pub final_line_total : ℕ
  pub promotion : ℕ

-- Why a promotion is not eligible.
pub data Reason : Type 0 where
  not_active not_started expired outside_hours wrong_day used_up first_orders_only : Reason
  login_required returning_only vip_only no_match below_subtotal too_few : Reason

pub data Eligibility : Type 0 where
  eligible : List Item → ℕ → Eligibility
  ineligible : Reason → Eligibility
