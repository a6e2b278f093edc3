-- ===== src/Coupons/Agreement.antt =====
-- The discount that a customer is shown (`couponCalculation.service.ts`) and the one that an order
-- gets (`orderCoupon.service.ts`).
use meeo_server.Base.{
  ℕ, zero, suc, ◌+◌, ◌-◌, ◌*◌, ◌≤◌, ◌<◌, leb, ◌≡◌, refl, ◌⊎◌, inl, inr, Option, none, some, arith,
  Option-cases, Bool-cases,
}
use meeo_server.Base.Result.{ok, err}
use meeo_server.Orm.{Orm}
use meeo_server.Coupons.Rules.{
  is_active_coupon, CouponKind, Coupon, CouponError, CouponTables, starts_later, has_expired,
  is_used_up, is_below, count_usages, is_used_up_by,
}
use meeo_server.Coupons.Preview.{cap, raw_discount, calculate, validate_and_calculate}
use meeo_server.Coupons.Checkout.{
  at_most, discount_of, validate_code, validate_and_calculate_discount,
}

-- The checkout's word for a refusal: a coupon that is not there is as one that is inactive.
abbrev pub in_checkout : CouponError → CouponError
in_checkout CouponError.not_found = CouponError.inactive
in_checkout e = e

cap-at_most : (m : Option ℕ) (raw : ℕ) → at_most m raw ≡ cap m raw
cap-at_most none raw = refl
cap-at_most (some m) raw = ground arith

discount_of_lem :
    (k : ℕ) (c : Coupon) (subtotal : ℕ)
    → discount_of k c subtotal ≡ record {
      coupon = some (k, c);
      discount = (calculate k c subtotal).discount;
      is_free_shipping = (calculate k c subtotal).is_free_shipping;
    }
unfolding discount_of calculate
discount_of_lem k c subtotal =
    ground (arith, cap-at_most c.maximum_discount_amount (subtotal * c.value))

mul_mono : (s v w : ℕ) → v ≤ w → s * v ≤ s * w
mul_mono zero v w h = omega arith
mul_mono (suc s) v w h = omega (arith, mul_mono s v w h)

cap_le : (m : Option ℕ) (raw : ℕ) → cap m raw ≤ raw
cap_le none raw = omega arith
cap_le (some m) raw = ground arith

raw_discount_le :
    (c : Coupon) (subtotal : ℕ)
    → (c.kind ≡ CouponKind.percentage → c.value ≤ 10_000)
    → raw_discount c subtotal ≤ subtotal * 10_000
raw_discount_le c subtotal h = go c.kind refl
  where
    go : (x : CouponKind) → c.kind ≡ x → raw_discount c subtotal ≤ subtotal * 10_000
    go CouponKind.percentage e = ground (
      arith,
      cap_le c.maximum_discount_amount (subtotal * c.value),
      mul_mono subtotal c.value 10_000 (h e),
    )
    go CouponKind.fixed_amount e = ground arith
    go CouponKind.free_shipping e = ground arith

new_subtotal_left :
    (k : ℕ) (c : Coupon) (subtotal : ℕ)
    → (calculate k c subtotal).new_subtotal ≡ subtotal - (calculate k c subtotal).discount
unfolding calculate
new_subtotal_left k c subtotal = refl

covered :
    (k : ℕ) (c : Coupon) (subtotal : ℕ)
    → (c.kind ≡ CouponKind.percentage → c.value ≤ 10_000)
    → let r = calculate k c subtotal in
      (r.discount ≤ subtotal) × (r.new_subtotal + r.discount ≡ subtotal)
unfolding calculate
covered k c subtotal h = ground (arith, raw_discount_le c subtotal h)

-- A discount that was calculated is at most the subtotal, and the new subtotal is what is left of it;
-- or the coupon is a percentage of more than 100, the discount exceeds the subtotal, and the new
-- subtotal is zero.
pub calculate_bounds :
    (k : ℕ) (c : Coupon) (subtotal : ℕ)
    → let r = calculate k c subtotal in
      ((r.discount ≤ subtotal) × (r.new_subtotal + r.discount ≡ subtotal))
      ⊎ ((c.kind ≡ CouponKind.percentage)
          × (10_000 < c.value)
          × (subtotal < r.discount)
          × (r.new_subtotal ≡ 0))
calculate_bounds k c subtotal = go c.kind refl
  where
    Bounded : Type 0
    Bounded =
        let r = calculate k c subtotal in
        ((r.discount ≤ subtotal) × (r.new_subtotal + r.discount ≡ subtotal))
        ⊎ ((c.kind ≡ CouponKind.percentage)
            × (10_000 < c.value)
            × (subtotal < r.discount)
            × (r.new_subtotal ≡ 0))

    go : (x : CouponKind) → c.kind ≡ x → Bounded
    go CouponKind.percentage e = elim (Bool-cases (leb c.value 10_000)) [
      | inl small ↦ inl (covered k c subtotal (λ _. ground arith))
      | inr large ↦ elim (Bool-cases (leb (calculate k c subtotal).discount subtotal)) [
        | inl within ↦ inl (ground arith, ground (arith, new_subtotal_left k c subtotal))
        | inr over ↦
            inr (e, ground arith, ground arith, ground (arith, new_subtotal_left k c subtotal))
      ]
    ]
    go CouponKind.fixed_amount e = inl (covered k c subtotal (λ p. ground arith))
    go CouponKind.free_shipping e = inl (covered k c subtotal (λ p. ground arith))

module _ (o : Orm) (now code subtotal : ℕ) (user : Option ℕ) (s : CouponTables o) where
  -- The customer and the order get the same: whenever the preview accepts a coupon, the checkout
  -- accepts it with the same discount and the same shipping, and whenever the preview refuses it,
  -- the checkout refuses it for the same reason, where a missing coupon counts as inactive. Neither
  -- writes a table.
  pub checkout_agrees :
      ((c : Coupon) × (o.find Coupon code s.coupons ≡ some c)
        × (validate_and_calculate o now code subtotal user s ≡ (ok (calculate code c subtotal), s))
        × (validate_and_calculate_discount o now (some code) subtotal user s ≡ (
          ok (record {
            coupon = some (code, c);
            discount = (calculate code c subtotal).discount;
            is_free_shipping = (calculate code c subtotal).is_free_shipping;
          }),
          s,
        )))
      ⊎ ((e : CouponError) × (validate_and_calculate o now code subtotal user s ≡ (err e, s))
          × (validate_and_calculate_discount o now (some code) subtotal user s
              ≡ (err (in_checkout e), s)))
  unfolding validate_and_calculate validate_and_calculate_discount validate_code
  checkout_agrees = elim (Option-cases (o.find Coupon code s.coupons)) [
    | inl e ↦ inr (CouponError.not_found, ground arith, ground arith)
    | inr (c, e) ↦ elim (Bool-cases (is_active_coupon c.status)) [
      | inr a ↦ inr (CouponError.inactive, ground arith, ground arith)
      | inl a ↦ elim (Bool-cases (starts_later now c.starts_at)) [
        | inl b ↦ inr (CouponError.not_started, ground arith, ground arith)
        | inr b ↦ elim (Bool-cases (has_expired now c.expires_at)) [
          | inl d ↦ inr (CouponError.expired, ground arith, ground arith)
          | inr d ↦ elim (Bool-cases (is_used_up c.usage_limit (count_usages o code s))) [
            | inl f ↦ inr (CouponError.usage_limit_reached, ground arith, ground arith)
            | inr f ↦ elim (Bool-cases (is_below c.minimum_order_amount subtotal)) [
              | inl g ↦ inr (CouponError.below_minimum, ground arith, ground arith)
              | inr g ↦ elim (Bool-cases (is_used_up_by o code c.usage_limit_per_user user s)) [
                | inl h ↦ inr (CouponError.user_limit_reached, ground arith, ground arith)
                | inr h ↦ inl (c, e, ground arith, ground (arith, discount_of_lem code c subtotal))
              ]
            ]
          ]
        ]
      ]
    ]
  ]
