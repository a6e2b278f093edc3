-- ===== src/Promotions/Engine.antt =====
-- `evaluate` and `calculateDiscount` of `promotionEngine.service.ts` (`src/modules/promotions/services`).
-- A discount that is not rounded yet is in ten-thousandths of a hundredth.
use meeo_server.Base.{
  ℕ, ◌+◌, ◌-◌, ◌*◌, ◌/◌, Bool, true, false, not, ◌&&◌, ◌||◌, Option, none, some, List, [], ◌∷◌,
  ◌++◌, ◌==◌, ltb, leb, if◌then◌else◌, min, length,
}
use meeo_server.Promotions.Rules.{
  PromotionKind, is_exclusive, Promotion, Item, Cart, Allocation, Reason, Eligibility,
}
use meeo_server.Promotions.Eligibility.{number_or, check_eligibility}

abbrev pub scale : ℕ
scale = 10_000

-- A quotient rounded half up, as `toFixed` rounds.
abbrev pub round_div : ℕ → ℕ → ℕ
round_div a b = (2 * a + b) / (2 * b)

abbrev pub at_most : Option ℕ → ℕ → ℕ
at_most none x = x
at_most (some m) x = min x (m * scale)

pub record Calculation : Type 0 where
  pub discount : ℕ
  pub free_shipping : Bool
  pub allocations : List Allocation

-- The share of an item in a discount on all matched items.
abbrev pub share_of : Promotion → ℕ → ℕ → Item → Allocation
share_of p subtotal discount item = record {
  product = item.product;
  variant = item.variant;
  original_line_total = item.line_total;
  discount = round_div (item.line_total * discount) (subtotal * scale);
  final_line_total =
      round_div (item.line_total * (subtotal * scale) - item.line_total * discount)
        (subtotal * scale);
  promotion = p.id;
}

unfoldable pub shares : Promotion → ℕ → ℕ → List Item → List Allocation
shares p subtotal discount [] = []
shares p subtotal discount (item ∷ l) =
    share_of p subtotal discount item ∷ shares p subtotal discount l

-- The percentages: a part of the matched subtotal, at most the maximum and what is left to pay.
unfoldable pub percentage_of : Promotion → List Item → ℕ → ℕ → Calculation
percentage_of p matched subtotal remaining =
    let raw = subtotal * number_or p.discount_value 0 in
    let discount = min (at_most p.max_discount_amount raw) (remaining * scale) in
    record {
      discount = round_div discount scale;
      free_shipping = false;
      allocations = if ltb 0 subtotal then shares p subtotal discount matched else [];
    }

-- The groups of an item that a BUY_X_GET_Y promotion discounts.
abbrev pub groups_of : Promotion → Item → ℕ
groups_of p item = item.quantity / (number_or p.buy_x_quantity 1 + number_or p.get_y_quantity 1)

abbrev pub item_discount : Promotion → ℕ → Item → ℕ
item_discount p remaining item =
    min
      (min
        (groups_of p item
          * number_or p.get_y_quantity 1
          * item.unit_price
          * number_or p.get_y_discount_percentage scale)
        (item.line_total * scale))
      (remaining * scale)

abbrev pub free_items : Promotion → ℕ → Item → Allocation
free_items p remaining item = record {
  product = item.product;
  variant = item.variant;
  original_line_total = item.line_total;
  discount = round_div (item_discount p remaining item) scale;
  final_line_total = round_div (item.line_total * scale - item_discount p remaining item) scale;
  promotion = p.id;
}

-- The loop over the matched items: the sum of their discounts, and their allocations.
unfoldable pub grouped : Promotion → ℕ → List Item → ℕ × List Allocation
grouped p remaining [] = (0, [])
grouped p remaining (item ∷ l) =
    let (sum, allocations) = grouped p remaining l in
    if ltb 0 (groups_of p item)
    then (item_discount p remaining item + sum, free_items p remaining item ∷ allocations)
    else (sum, allocations)

unfoldable pub buy_x_get_y : Promotion → List Item → ℕ → Calculation
buy_x_get_y p matched remaining =
    let (sum, allocations) = grouped p remaining matched in
    record {
      discount = round_div (min sum (remaining * scale)) scale;
      free_shipping = false;
      allocations = allocations;
    }

unfoldable pub calculate_for : PromotionKind → Promotion → List Item → ℕ → ℕ → Calculation
calculate_for PromotionKind.fixed_discount p matched subtotal remaining = record {
  discount = min (min (number_or p.discount_value 0) subtotal) remaining;
  free_shipping = false;
  allocations = [];
}
calculate_for PromotionKind.free_shipping p matched subtotal remaining = record {
  discount = 0;
  free_shipping = true;
  allocations = [];
}
calculate_for PromotionKind.buy_x_get_y p matched subtotal remaining =
    buy_x_get_y p matched remaining
calculate_for _ p matched subtotal remaining = percentage_of p matched subtotal remaining

unfoldable pub calculate_discount : Promotion → List Item → ℕ → ℕ → Calculation
calculate_discount p matched subtotal remaining = calculate_for p.kind p matched subtotal remaining

-- A promotion that is a candidate, with the items that it matches and their subtotal.
pub record Candidate : Type 0 where
  pub promotion : Promotion
  pub matched : List Item
  pub subtotal : ℕ

-- `AppliedPromotionDetail`, in which the promotion stands for the fields that are copied of it.
pub record Applied : Type 0 where
  pub promotion : Promotion
  pub discount : ℕ
  pub free_shipping : Bool
  pub free_shipping_discount : ℕ
  pub matched_count : ℕ

-- The first loop: the candidates, and why the others are none.
unfoldable pub filter_candidates : Cart → ℕ → List Promotion → List Candidate × List (ℕ × Reason)
filter_candidates cart now [] = ([], [])
filter_candidates cart now (p ∷ ps) =
    let (candidates, others) = filter_candidates cart now ps in
    elim (check_eligibility p cart now) [
      | Eligibility.eligible matched subtotal ↦
          (record { promotion = p; matched = matched; subtotal = subtotal } ∷ candidates, others)
      | Eligibility.ineligible reason ↦ (candidates, (p.id, reason) ∷ others)
    ]

-- `sort((a, b) => b.promo.priority - a.promo.priority)`, which keeps the order of equals.
unfoldable pub insert_candidate : Candidate → List Candidate → List Candidate
insert_candidate c [] = c ∷ []
insert_candidate c (d ∷ l) =
    let rest = insert_candidate c l in
    if leb d.promotion.priority c.promotion.priority then c ∷ d ∷ l else d ∷ rest

unfoldable pub by_priority : List Candidate → List Candidate
by_priority [] = []
by_priority (c ∷ l) = insert_candidate c (by_priority l)

-- What the second loop has gathered: the promotions applied, first to last, and their sums.
pub record Progress : Type 0 where
  pub applied : List Applied
  pub allocations : List Allocation
  pub running : ℕ
  pub free_shipping : Bool
  pub exclusive_applied : Bool

abbrev pub no_progress : Progress
no_progress = record {
  applied = [];
  allocations = [];
  running = 0;
  free_shipping = false;
  exclusive_applied = false;
}

abbrev pub is_none_applied : List Applied → Bool
is_none_applied [] = true
is_none_applied (a ∷ l) = false

abbrev pub with_applied : ℕ → Candidate → Calculation → Progress → Progress
with_applied fee c calc g = record {
  applied =
      g.applied
      ++ (record {
        promotion = c.promotion;
        discount = calc.discount;
        free_shipping = calc.free_shipping;
        free_shipping_discount = if calc.free_shipping then fee else 0;
        matched_count = length c.matched;
      }
          ∷ []);
  allocations = g.allocations ++ calc.allocations;
  running = g.running + calc.discount;
  free_shipping = g.free_shipping || calc.free_shipping;
  exclusive_applied = g.exclusive_applied || is_exclusive c.promotion.stacking_rule;
}

-- The second loop, over the candidates by priority.
unfoldable pub apply_all : ℕ → ℕ → List Candidate → Progress → Progress
apply_all original fee [] g = g
apply_all original fee (c ∷ l) g =
    let calc = calculate_discount c.promotion c.matched c.subtotal (original - g.running) in
    let next = with_applied fee c calc g in
    elim g.exclusive_applied [
      | true ↦ g
      | false ↦
          elim ((is_exclusive c.promotion.stacking_rule && not (is_none_applied g.applied))
            || ((calc.discount == 0) && not calc.free_shipping)) [
              | true ↦ apply_all original fee l g
              | false ↦ elim c.promotion.is_stackable [
                | true ↦ apply_all original fee l next
                | false ↦ next
              ]
            ]
    ]

pub record Evaluation : Type 0 where
  pub original_subtotal : ℕ
  pub discount_subtotal : ℕ
  pub shipping_fee : ℕ
  pub shipping_discount : ℕ
  pub final_shipping_fee : ℕ
  pub free_shipping : Bool
  pub grand_total : ℕ
  pub total_discount : ℕ
  pub applied : List Applied
  pub allocations : List Allocation
  pub ineligible : List (ℕ × Reason)

unfoldable pub evaluate : List Promotion → Cart → ℕ → Evaluation
evaluate promotions cart now =
    let fee = number_or cart.shipping_fee 0 in
    let (candidates, others) = filter_candidates cart now promotions in
    let g = apply_all cart.subtotal fee (by_priority candidates) no_progress in
    let discount = min cart.subtotal g.running in
    let shipping_discount = if g.free_shipping then fee else 0 in
    let final_fee = fee - shipping_discount in
    record {
      original_subtotal = cart.subtotal;
      discount_subtotal = discount;
      shipping_fee = fee;
      shipping_discount = shipping_discount;
      final_shipping_fee = final_fee;
      free_shipping = g.free_shipping;
      grand_total = cart.subtotal - discount + final_fee;
      total_discount = discount + shipping_discount;
      applied = g.applied;
      allocations = g.allocations;
      ineligible = others;
    }
