-- ===== src/Promotions/Tests.antt =====
-- The theorems on promotions, applied to a cart of two items.
use meeo_server.Base.{ℕ, ◌+◌, ◌≤◌, ◌≡◌, ◌↔◌, refl, none, some, true, false, List, [], ◌∷◌}
use meeo_server.Promotions.Rules.{
  PromotionStatus, PromotionKind, StackingRule, Segment, Promotion, Item, Cart, Eligibility,
}
use meeo_server.Promotions.Eligibility.{
  is_match, get_matching_items, refusal_of, check_items, check_eligibility,
}
use meeo_server.Promotions.Engine.{
  evaluate, shares, percentage_of, calculate_for, calculate_discount, filter_candidates,
  insert_candidate, by_priority, apply_all,
}
use meeo_server.Promotions.Discounts.{total_discount_of, evaluate_totals}
use meeo_server.Promotions.Stacking.{IsFair, evaluate-IsFair}
use meeo_server.Promotions.Acceptance.{IsLive, IsMeantFor, IsCovered, check_eligibility_iff}

abbrev tenth : Promotion
tenth = record {
  id = 1;
  kind = PromotionKind.percentage;
  status = PromotionStatus.active;
  priority = 1;
  is_stackable = true;
  stacking_rule = StackingRule.stackable_with_others;
  segment = Segment.all;
  first_order_only = false;
  discount_value = some 1000;
  max_discount_amount = none;
  min_order_subtotal = none;
  min_quantity = none;
  buy_x_quantity = none;
  get_y_quantity = none;
  get_y_discount_percentage = none;
  starts_at = some 5;
  ends_at = none;
  time_of_day_start = none;
  time_of_day_end = none;
  days_of_week = [];
  total_usage_limit = some 3;
  current_usage_count = 2;
  target_products = [];
  target_categories = [];
  target_brands = [];
  excluded_products = [];
  excluded_categories = [];
}

-- Twenty units off, before the other.
abbrev twenty_off : Promotion
twenty_off = record tenth {
  id = 2;
  kind = PromotionKind.fixed_discount;
  priority = 7;
  discount_value = some 2000;
}

abbrev item : ℕ → ℕ → Item
item product price = record {
  product = product;
  variant = none;
  category = none;
  brand = none;
  unit_price = price;
  quantity = 1;
  line_total = price;
}

abbrev items : List Item
items = item 1 4000 ∷ item 2 6000 ∷ []

abbrev cart : Cart
cart = record {
  user = none;
  segment = none;
  order_count = none;
  subtotal = 10_000;
  shipping_fee = some 500;
  items = items;
}

grand_total : (evaluate (tenth ∷ twenty_off ∷ []) cart 9).grand_total ≡ 7500
unfolding evaluate filter_candidates check_eligibility refusal_of get_matching_items is_match
    check_items by_priority insert_candidate apply_all calculate_discount calculate_for
    percentage_of shares
grand_total = refl

evaluate_totals_example :
    let v = evaluate (tenth ∷ twenty_off ∷ []) cart 9 in
    (total_discount_of v.applied ≡ v.discount_subtotal)
    × (v.discount_subtotal ≤ 10_000)
    × (v.shipping_discount + v.final_shipping_fee ≡ 500)
    × (v.grand_total + v.total_discount ≡ 10_000 + 500)
evaluate_totals_example = evaluate_totals (tenth ∷ twenty_off ∷ []) cart 9

evaluate-IsFair_example : IsFair cart 9 (evaluate (tenth ∷ twenty_off ∷ []) cart 9).applied
evaluate-IsFair_example = evaluate-IsFair (tenth ∷ twenty_off ∷ []) cart 9

tenth_eligible : check_eligibility tenth cart 9 ≡ Eligibility.eligible items 10_000
unfolding check_eligibility refusal_of get_matching_items is_match check_items
tenth_eligible = refl

check_eligibility_iff_example :
    (check_eligibility tenth cart 9 ≡ Eligibility.eligible items 10_000)
    ↔ (IsLive tenth 9 × IsMeantFor tenth cart × IsCovered tenth cart items 10_000)
check_eligibility_iff_example = check_eligibility_iff tenth cart 9 items 10_000
