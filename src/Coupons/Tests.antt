-- ===== src/Coupons/Tests.antt =====
-- The theorems on coupons, applied to one coupon.
use meeo_server.Base.{◌+◌, ◌≤◌, ◌<◌, ◌≡◌, refl, ◌⊎◌, none, some, [], ◌∷◌}
use meeo_server.Base.Result.{ok, err}
use meeo_server.Tables.{lists}
use meeo_server.Coupons.Rules.{CouponStatus, CouponKind, Coupon, CouponError, CouponTables}
use meeo_server.Coupons.Preview.{calculate, validate_and_calculate}
use meeo_server.Coupons.Checkout.{validate_and_calculate_discount}
use meeo_server.Coupons.Agreement.{in_checkout, calculate_bounds, checkout_agrees}

-- 12.5 percent of an order of at least 10, but at most 20, once for each user.
abbrev one_eighth : Coupon
one_eighth = record {
  kind = CouponKind.percentage;
  value = 1250;
  minimum_order_amount = some 1000;
  maximum_discount_amount = some 2000;
  usage_limit = none;
  usage_limit_per_user = some 1;
  starts_at = none;
  expires_at = some 900;
  status = CouponStatus.active;
}

-- 500 percent, which an update of the value alone admits.
abbrev fivefold : Coupon
fivefold = record one_eighth { value = 50_000; maximum_discount_amount = none }

abbrev tables : CouponTables lists
tables = record {
  coupons = (3, one_eighth) ∷ [];
  usages = (1, record { coupon = 3; order = 4; user = some 9; discount = 100 }) ∷ [];
}

calculate_bounds_example :
    let r = calculate 3 fivefold 9999 in
    ((r.discount ≤ 9999) × (r.new_subtotal + r.discount ≡ 9999))
    ⊎ ((CouponKind.percentage ≡ CouponKind.percentage)
        × (10_000 < 50_000)
        × (9999 < r.discount)
        × (r.new_subtotal ≡ 0))
calculate_bounds_example = calculate_bounds 3 fivefold 9999

-- The exact discount, 12.49875, is rounded.
calculate_rounds : (calculate 3 one_eighth 9999).discount ≡ 1250
unfolding calculate
calculate_rounds = refl

checkout_agrees_example :
    ((c : Coupon) × (some one_eighth ≡ some c)
      × (validate_and_calculate lists 60 3 9999 (some 5) tables ≡ (ok (calculate 3 c 9999), tables))
      × (validate_and_calculate_discount lists 60 (some 3) 9999 (some 5) tables ≡ (
        ok (record {
          coupon = some (3, c);
          discount = (calculate 3 c 9999).discount;
          is_free_shipping = (calculate 3 c 9999).is_free_shipping;
        }),
        tables,
      )))
    ⊎ ((e : CouponError) × (validate_and_calculate lists 60 3 9999 (some 5) tables
          ≡ (err e, tables))
        × (validate_and_calculate_discount lists 60 (some 3) 9999 (some 5) tables
            ≡ (err (in_checkout e), tables)))
checkout_agrees_example = checkout_agrees lists 60 3 9999 (some 5) tables
