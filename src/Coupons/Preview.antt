-- ===== src/Coupons/Preview.antt =====
-- `src/modules/coupons/services/couponCalculation.service.ts`: a coupon tried on a subtotal.
use meeo_server.Base.{
  ℕ, ◌-◌, ◌*◌, Option, none, some, Bool, true, false, not, ltb, if◌then◌else◌, min,
}
use meeo_server.Base.Result.{◌>>=◌, ◌>>◌, pure, raise_if, or_raise, gets}
use meeo_server.Orm.{Orm}
use meeo_server.Coupons.Rules.{
  is_active_coupon, CouponKind, Coupon, CouponError, CouponService, starts_later, has_expired,
  is_used_up, is_below, to_fixed, count_usages, is_used_up_by,
}

pub record Calculation : Type 0 where
  pub coupon : ℕ
  pub original_subtotal : ℕ
  pub discount : ℕ
  pub new_subtotal : ℕ
  pub is_free_shipping : Bool

-- `maxDiscount !== null && discountAmount > maxDiscount` replaces the discount.
abbrev pub cap : Option ℕ → ℕ → ℕ
cap none raw = raw
cap (some m) raw = if ltb (m * 10_000) raw then m * 10_000 else raw

-- The exact discount, in ten-thousandths of a hundredth.
abbrev pub raw_discount : Coupon → ℕ → ℕ
raw_discount c subtotal = elim c.kind [
  | CouponKind.percentage ↦ cap c.maximum_discount_amount (subtotal * c.value)
  | CouponKind.fixed_amount ↦ min c.value subtotal * 10_000
  | CouponKind.free_shipping ↦ 0
]

abbrev pub is_free : CouponKind → Bool
is_free CouponKind.percentage = false
is_free CouponKind.fixed_amount = false
is_free CouponKind.free_shipping = true

unfoldable pub calculate : ℕ → Coupon → ℕ → Calculation
calculate k c subtotal =
    let discount = to_fixed (raw_discount c subtotal) in
    record {
      coupon = k;
      original_subtotal = subtotal;
      discount = discount;
      new_subtotal = subtotal - discount;
      is_free_shipping = is_free c.kind;
    }

module _ (o : Orm) where
  unfoldable pub validate_and_calculate : ℕ → ℕ → ℕ → Option ℕ → CouponService o Calculation
  validate_and_calculate now code subtotal user = do
    c ← or_raise (← gets (λ s. o.find Coupon code s.coupons)) CouponError.not_found
    raise_if (not (is_active_coupon c.status)) CouponError.inactive
    raise_if (starts_later now c.starts_at) CouponError.not_started
    raise_if (has_expired now c.expires_at) CouponError.expired
    used ← gets (count_usages o code)
    raise_if (is_used_up c.usage_limit used) CouponError.usage_limit_reached
    raise_if (is_below c.minimum_order_amount subtotal) CouponError.below_minimum
    spent ← gets (is_used_up_by o code c.usage_limit_per_user user)
    raise_if spent CouponError.user_limit_reached
    pure (calculate code c subtotal)
