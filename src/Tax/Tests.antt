-- ===== src/Tax/Tests.antt =====
-- The theorems on tax, applied to small orders.
use meeo_server.Base.{
  ℕ, ◌≡◌, refl, Bool, true, false, none, some, List, [], ◌∷◌, arith, if◌then◌else◌, min, sum_by,
}
use meeo_server.Base.Int.{pos, negsuc, ◌+ℤ◌, ◌-ℤ◌}
use meeo_server.Tax.Gst.{
  GstItem, set_zeros, set_shares, largest_of, reconcile, gross_subtotal_of, allocate_discounts,
  rates_of, line_of, lines_of, shipping_of, some_exclusive, calculate_order_gst,
}
use meeo_server.Tax.Shares.{given_of, allocate_discounts_lem}
use meeo_server.Tax.Totals.{included_tax, final_sum, calculate_order_gst_lem}

abbrev item : ℕ → ℕ → Bool → GstItem
item id price inclusive = record {
  id = id;
  quantity = 1;
  unit_price = price;
  tax_rate = 1800;
  cgst_rate = none;
  sgst_rate = none;
  igst_rate = none;
  cess_rate = none;
  treatment = none;
  is_inclusive = inclusive;
}

-- One price without its tax, and one with it.
abbrev mixed : List GstItem
mixed = item 1 10_000 false ∷ item 2 11_800 true ∷ []

allocate_discounts_lem_example :
    given_of (allocate_discounts mixed 101) mixed ≡ pos (min 101 (gross_subtotal_of mixed))
allocate_discounts_lem_example = allocate_discounts_lem mixed 101 (refl, (refl, tt))

-- The tax of 18.00 that the second price includes is asked for again.
mixed_total :
    let r = calculate_order_gst (some 27) (some 27) mixed 0 500 false 1800 in
    (r.totals.grand_total ≡ 25_990)
    × (final_sum r.lines ≡ pos 23_600)
    × (r.totals.shipping_total ≡ 590)
unfolding calculate_order_gst allocate_discounts lines_of line_of rates_of shipping_of ◌+ℤ◌ ◌-ℤ◌
    set_zeros
mixed_total = (refl, refl, refl)

calculate_order_gst_lem_example :
    let r = calculate_order_gst (some 27) (some 27) mixed 0 500 false 1800 in
    pos r.totals.grand_total
    ≡ final_sum r.lines
      +ℤ pos r.totals.shipping_total
      +ℤ pos (if some_exclusive mixed then sum_by included_tax r.lines else 0)
unfolding allocate_discounts set_zeros
calculate_order_gst_lem_example =
    calculate_order_gst_lem (some 27) (some 27) mixed 0 500 false 1800 (refl, (refl, tt))
      (omega arith) (omega arith)

-- Two hundredths over four items of one hundredth: each share is rounded up, and the first item is
-- given a negative discount.
negative_share :
    allocate_discounts (item 1 1 true ∷ item 2 1 true ∷ item 3 1 true ∷ item 4 1 true ∷ []) 2
    ≡ ((1, negsuc 0) ∷ (2, pos 1) ∷ (3, pos 1) ∷ (4, pos 1) ∷ [])
unfolding allocate_discounts reconcile set_shares largest_of ◌+ℤ◌ ◌-ℤ◌
negative_share = refl

-- Over five such items each share is rounded down, and the first item is given more than its price.
excessive_share :
    allocate_discounts
      (item 1 1 true ∷ item 2 1 true ∷ item 3 1 true ∷ item 4 1 true ∷ item 5 1 true ∷ [])
      2
    ≡ ((1, pos 2) ∷ (2, pos 0) ∷ (3, pos 0) ∷ (4, pos 0) ∷ (5, pos 0) ∷ [])
unfolding allocate_discounts reconcile set_shares largest_of ◌+ℤ◌ ◌-ℤ◌
excessive_share = refl
