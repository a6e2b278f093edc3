-- ===== src/Promotions/Discounts.antt =====
-- The amounts of an evaluation (`promotionEngine.service.ts`, `src/modules/promotions/services`).
use meeo_server.Base.{
  ℕ, ◌+◌, ◌-◌, ◌*◌, ◌≤◌, ◌≡◌, refl, List, [], ◌∷◌, ◌++◌, arith, if◌then◌else◌, min, sum_by, length,
}
use meeo_server.Promotions.Rules.{PromotionKind, Promotion, Item, Cart}
use meeo_server.Promotions.Eligibility.{number_or}
use meeo_server.Promotions.Loop.{calculation_of, next_of, apply_all-induct}
use meeo_server.Promotions.Engine.{
  scale, round_div, percentage_of, buy_x_get_y, calculate_for, calculate_discount, Candidate,
  Applied, filter_candidates, by_priority, Progress, no_progress, apply_all, evaluate,
}

-- What is rounded after it is bounded by whole hundredths stays within them.
round-le : (x r : ℕ) → round_div (min x (r * scale)) scale ≤ r
round-le x r = omega arith

calculate_for-le :
    (k : PromotionKind) (p : Promotion) (matched : List Item) (subtotal remaining : ℕ)
    → (calculate_for k p matched subtotal remaining).discount ≤ remaining
unfolding calculate_for percentage_of buy_x_get_y
calculate_for-le PromotionKind.percentage p m s r = round-le _ r
calculate_for-le PromotionKind.fixed_discount p m s r = omega arith
calculate_for-le PromotionKind.buy_x_get_y p m s r = round-le _ r
calculate_for-le PromotionKind.free_shipping p m s r = omega arith
calculate_for-le PromotionKind.product_discount p m s r = round-le _ r
calculate_for-le PromotionKind.category_discount p m s r = round-le _ r
calculate_for-le PromotionKind.brand_discount p m s r = round-le _ r
calculate_for-le PromotionKind.flash_sale p m s r = round-le _ r

calculate_discount-le :
    (p : Promotion) (matched : List Item) (subtotal remaining : ℕ)
    → (calculate_discount p matched subtotal remaining).discount ≤ remaining
unfolding calculate_discount
calculate_discount-le p m s r = calculate_for-le p.kind p m s r

abbrev pub total_discount_of : List Applied → ℕ
total_discount_of l = sum_by (λ (a : Applied). a.discount) l

total-append :
    (l : List Applied) (a : Applied)
    → total_discount_of (l ++ (a ∷ [])) ≡ total_discount_of l + a.discount
total-append [] a = omega arith
total-append (x ∷ l) a = ground (arith, total-append l a)

-- The running sum is the sum of the discounts applied, and is covered by the subtotal.
record IsCounted (original : ℕ) (g : Progress) : Type 0 where
  counted : total_discount_of g.applied ≡ g.running
  covered : g.running ≤ original

module _ (original fee : ℕ) where
  apply-IsCounted :
      (c : Candidate) (g : Progress)
      → IsCounted original g
      → IsCounted original (next_of original fee c g)
  apply-IsCounted c g h =
      let calc = calculation_of original fee c g in
      let bound = calculate_discount-le c.promotion c.matched c.subtotal (original - g.running) in
      record {
        counted = ground (
          arith,
          h.counted,
          total-append g.applied (record {
            promotion = c.promotion;
            discount = calc.discount;
            free_shipping = calc.free_shipping;
            free_shipping_discount = if calc.free_shipping then fee else 0;
            matched_count = length c.matched;
          }),
        );
        covered = ground (arith, h.covered);
      }

  apply_all-IsCounted :
      (l : List Candidate) → IsCounted original (apply_all original fee l no_progress)
  apply_all-IsCounted l =
      apply_all-induct original fee
        (record {
          at_end = λ l g h. h;
          skip = λ c l g h. h;
          apply = λ c l g h _ _ _. apply-IsCounted c g h;
          last = λ c l g h _ _ _. apply-IsCounted c g h;
        })
        l no_progress (record { counted = refl; covered = omega arith })

-- The amounts of an evaluation agree: the discounts of the promotions applied add up to the discount,
-- which the subtotal covers; the fee is what is left of it and what is taken off; and what is to be
-- paid and the discounts together are the subtotal and the fee.
pub evaluate_totals :
    (promotions : List Promotion) (cart : Cart) (now : ℕ)
    → let v = evaluate promotions cart now in
      (total_discount_of v.applied ≡ v.discount_subtotal)
      × (v.discount_subtotal ≤ cart.subtotal)
      × (v.shipping_discount + v.final_shipping_fee ≡ number_or cart.shipping_fee 0)
      × (v.grand_total + v.total_discount ≡ cart.subtotal + number_or cart.shipping_fee 0)
unfolding evaluate
evaluate_totals promotions cart now =
    let fee = number_or cart.shipping_fee 0 in
    let l = by_priority (filter_candidates cart now promotions).0 in
    let h = apply_all-IsCounted cart.subtotal fee l in
    let g = apply_all cart.subtotal fee l no_progress in
    (ground (arith, h.counted, h.covered), omega arith, ground arith, ground (arith, h.covered))
