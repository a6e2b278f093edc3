-- ===== src/Coupons/Checkout.antt =====
-- `src/modules/orders/services/orderCoupon.service.ts`: the coupon of an order, and its usage. A code
-- stands for its text, which is not empty: an empty one is, as `!couponCode` has it, no code.
use meeo_server.Base.{ℕ, ◌*◌, Option, none, some, Bool, true, false, not, min}
use meeo_server.Base.Result.{ok, ◌>>=◌, ◌>>◌, pure, raise_if, or_raise, gets}
use meeo_server.Orm.{Orm}
use meeo_server.Coupons.Rules.{
  is_active_coupon, CouponKind, Coupon, Usage, CouponError, CouponService, starts_later,
  has_expired, is_used_up, is_below, to_fixed, count_usages, is_used_up_by,
}

pub record OrderDiscount : Type 0 where
  pub coupon : Option (ℕ × Coupon)
  pub discount : ℕ
  pub is_free_shipping : Bool

-- `Math.min(discountAmount, Number(coupon.maximumDiscountAmount))`
abbrev pub at_most : Option ℕ → ℕ → ℕ
at_most none raw = raw
at_most (some m) raw = min raw (m * 10_000)

unfoldable pub discount_of : ℕ → Coupon → ℕ → OrderDiscount
discount_of k c subtotal = elim c.kind [
  | CouponKind.percentage ↦ record {
    coupon = some (k, c);
    discount = to_fixed (at_most c.maximum_discount_amount (subtotal * c.value));
    is_free_shipping = false;
  }
  | CouponKind.fixed_amount ↦ record {
    coupon = some (k, c);
    discount = to_fixed (min c.value subtotal * 10_000);
    is_free_shipping = false;
  }
  | CouponKind.free_shipping ↦ record {
    coupon = some (k, c);
    discount = to_fixed 0;
    is_free_shipping = true;
  }
]

module _ (o : Orm) where
  -- Part of `validateAndCalculateDiscount`: a code that was given.
  unfoldable pub validate_code : ℕ → ℕ → ℕ → Option ℕ → CouponService o OrderDiscount
  validate_code now code subtotal user = do
    c ← or_raise (← gets (λ s. o.find Coupon code s.coupons)) CouponError.inactive
    raise_if (not (is_active_coupon c.status)) CouponError.inactive
    raise_if (starts_later now c.starts_at) CouponError.not_started
    raise_if (has_expired now c.expires_at) CouponError.expired
    used ← gets (count_usages o code)
    raise_if (is_used_up c.usage_limit used) CouponError.usage_limit_reached
    raise_if (is_below c.minimum_order_amount subtotal) CouponError.below_minimum
    spent ← gets (is_used_up_by o code c.usage_limit_per_user user)
    raise_if spent CouponError.user_limit_reached
    pure (discount_of code c subtotal)

  unfoldable pub validate_and_calculate_discount :
      ℕ → Option ℕ → ℕ → Option ℕ → CouponService o OrderDiscount
  validate_and_calculate_discount now none subtotal user =
      pure (record { coupon = none; discount = 0; is_free_shipping = false })
  validate_and_calculate_discount now (some code) subtotal user =
      validate_code now code subtotal user

  unfoldable pub record_usage : ℕ → ℕ → ℕ → Option ℕ → CouponService o Usage
  record_usage k order discount user s =
      let u : Usage = record { coupon = k; order = order; user = user; discount = discount } in
      (ok u, record s { usages = o.write Usage (o.fresh Usage s.usages) u s.usages })
