-- ===== src/Tax/Gst.antt =====
-- `src/modules/tax/services/gstEngine.service.ts`. Amounts are in hundredths and rates in hundredths
-- of a percent, so that `roundToTwoDecimals` is a rounding of a quotient to a whole number, half up,
-- and does nothing to a sum or a difference. An allocated discount has a sign. What
-- `normalizeIndianState` makes of the two states is an argument.
use meeo_server.Base.{
  ℕ, ◌+◌, ◌*◌, ◌/◌, Bool, true, false, not, ◌&&◌, ◌||◌, Option, none, some, List, [], ◌∷◌, ◌==◌,
  ltb, if◌then◌else◌, min, find_in, sum_by,
}
use meeo_server.Base.Int.{ℤ, pos, pos_part, ◌+ℤ◌, ◌-ℤ◌}

-- A quotient rounded half up.
abbrev pub round_div : ℕ → ℕ → ℕ
round_div a b = (2 * a + b) / (2 * b)

pub data Treatment : Type 0 where
  taxable nil_rated exempt zero_rated non_taxable : Treatment

-- `item.taxTreatment ?? "TAXABLE"`
abbrev pub is_taxable : Option Treatment → Bool
is_taxable none = true
is_taxable (some Treatment.taxable) = true
is_taxable (some _) = false

pub record GstItem : Type 0 where
  pub id : ℕ
  pub quantity : ℕ
  pub unit_price : ℕ
  pub tax_rate : ℕ
  pub cgst_rate : Option ℕ
  pub sgst_rate : Option ℕ
  pub igst_rate : Option ℕ
  pub cess_rate : Option ℕ
  pub treatment : Option Treatment
  pub is_inclusive : Bool

-- Inter-state, unless both states are known and have one code.
abbrev pub is_inter_state : Option ℕ → Option ℕ → Bool
is_inter_state none c = true
is_inter_state (some s) none = true
is_inter_state (some s) (some c) = not (s == c)

abbrev pub gross_of : GstItem → ℕ
gross_of i = i.unit_price * i.quantity

abbrev pub gross_subtotal_of : List GstItem → ℕ
gross_subtotal_of l = sum_by gross_of l

-- `Map.set`
abbrev pub set_entry : ℕ → ℤ → List (ℕ × ℤ) → List (ℕ × ℤ)
set_entry k v [] = (k, v) ∷ []
set_entry k v ((j, x) ∷ m) = if j == k then (k, v) ∷ m else (j, x) ∷ set_entry k v m

-- `map.get(id) ?? 0`
abbrev pub entry_or_zero : ℕ → List (ℕ × ℤ) → ℤ
entry_or_zero k m = elim (find_in k m) [ none ↦ pos 0 | some v ↦ v ]

unfoldable pub set_zeros : List GstItem → List (ℕ × ℤ) → List (ℕ × ℤ)
set_zeros [] m = m
set_zeros (i ∷ l) m = set_zeros l (set_entry i.id (pos 0) m)

abbrev pub share_of : ℕ → ℕ → GstItem → ℕ
share_of capped gross i = round_div (capped * gross_of i) gross

-- The loop's assignments to the map, its sum, and its largest item, the first of several.
unfoldable pub set_shares : ℕ → ℕ → List GstItem → List (ℕ × ℤ) → List (ℕ × ℤ)
set_shares capped gross [] m = m
set_shares capped gross (i ∷ l) m =
    set_shares capped gross l (set_entry i.id (pos (share_of capped gross i)) m)

abbrev pub allocated_sum : ℕ → ℕ → List GstItem → ℕ
allocated_sum capped gross l = sum_by (share_of capped gross) l

abbrev pub larger : GstItem → GstItem → GstItem
larger best i = if ltb (gross_of best) (gross_of i) then i else best

unfoldable pub largest_of : GstItem → List GstItem → GstItem
largest_of best [] = best
largest_of best (i ∷ l) = largest_of (larger best i) l

-- The difference that rounding leaves, put onto the largest item.
unfoldable pub reconcile : ℕ → ℕ → List GstItem → List (ℕ × ℤ) → List (ℕ × ℤ)
reconcile capped gross [] m = m
reconcile capped gross (i ∷ l) m =
    let k = (largest_of i (i ∷ l)).id in
    let sum = allocated_sum capped gross (i ∷ l) in
    if capped == sum then m else set_entry k (entry_or_zero k m +ℤ (pos capped -ℤ pos sum)) m

unfoldable pub allocate_discounts : List GstItem → ℕ → List (ℕ × ℤ)
allocate_discounts l total =
    let gross = gross_subtotal_of l in
    let capped = min total gross in
    if (total == 0) || (gross == 0)
    then set_zeros l []
    else reconcile capped gross l (set_shares capped gross l [])

pub record Rates : Type 0 where
  pub cgst : ℕ
  pub sgst : ℕ
  pub igst : ℕ
  pub cess : ℕ

abbrev pub rate_or : Option ℕ → ℕ → ℕ
rate_or none d = d
rate_or (some r) d = r

unfoldable pub rates_of : Bool → GstItem → Rates
rates_of inter_state i =
    let taxed = is_taxable i.treatment in
    let half = round_div i.tax_rate 2 in
    record {
      cgst = if taxed && not inter_state then rate_or i.cgst_rate half else 0;
      sgst = if taxed && not inter_state then rate_or i.sgst_rate half else 0;
      igst = if taxed && inter_state then rate_or i.igst_rate i.tax_rate else 0;
      cess = rate_or i.cess_rate 0;
    }

abbrev pub tax_on : ℕ → ℕ → ℕ
tax_on amount rate = round_div (amount * rate) 10_000

-- `CalculatedGstLineItem`, without the item's names.
pub record Line : Type 0 where
  pub id : ℕ
  pub gross : ℕ
  pub allocated : ℤ
  pub net_taxable : ℕ
  pub rates : Rates
  pub cgst_amount : ℕ
  pub sgst_amount : ℕ
  pub igst_amount : ℕ
  pub cess_amount : ℕ
  pub total_tax : ℕ
  pub final_total : ℤ
  pub is_inclusive : Bool

unfoldable pub line_of : Bool → List (ℕ × ℤ) → GstItem → Line
line_of inter_state discounts i =
    let allocated = entry_or_zero i.id discounts in
    let rates = rates_of inter_state i in
    let total_rate = rates.cgst + rates.sgst + rates.igst + rates.cess in
    let discounted = pos_part (pos (gross_of i) -ℤ allocated) in
    let net =
      if i.is_inclusive
      then round_div (discounted * 10_000) (10_000 + total_rate)
      else discounted in
    let taxed = is_taxable i.treatment && ltb 0 net in
    let cgst = if taxed && not inter_state then tax_on net rates.cgst else 0 in
    let sgst = if taxed && not inter_state then tax_on net rates.sgst else 0 in
    let igst = if taxed && inter_state then tax_on net rates.igst else 0 in
    let cess = if taxed then tax_on net rates.cess else 0 in
    record {
      id = i.id;
      gross = gross_of i;
      allocated = allocated;
      net_taxable = net;
      rates = rates;
      cgst_amount = cgst;
      sgst_amount = sgst;
      igst_amount = igst;
      cess_amount = cess;
      total_tax = cgst + sgst + igst + cess;
      final_total =
          if i.is_inclusive
          then pos (gross_of i) -ℤ allocated
          else pos (net + (cgst + sgst + igst + cess));
      is_inclusive = i.is_inclusive;
    }

unfoldable pub lines_of : Bool → List (ℕ × ℤ) → List GstItem → List Line
lines_of inter_state discounts [] = []
lines_of inter_state discounts (i ∷ l) =
    line_of inter_state discounts i ∷ lines_of inter_state discounts l

pub record Shipping : Type 0 where
  pub fee : ℕ
  pub cgst_amount : ℕ
  pub sgst_amount : ℕ
  pub igst_amount : ℕ
  pub total_tax : ℕ
  pub final_total : ℕ

unfoldable pub shipping_of : Bool → ℕ → ℕ → Shipping
shipping_of inter_state fee rate =
    let half = round_div rate 2 in
    let cgst = if ltb 0 fee && not inter_state then tax_on fee half else 0 in
    let sgst = if ltb 0 fee && not inter_state then tax_on fee half else 0 in
    let igst = if ltb 0 fee && inter_state then tax_on fee rate else 0 in
    record {
      fee = fee;
      cgst_amount = cgst;
      sgst_amount = sgst;
      igst_amount = igst;
      total_tax = cgst + sgst + igst;
      final_total = fee + (cgst + sgst + igst);
    }

pub record GstTotals : Type 0 where
  pub gross_subtotal : ℕ
  pub total_discount : ℕ
  pub taxable_amount : ℕ
  pub cgst_amount : ℕ
  pub sgst_amount : ℕ
  pub igst_amount : ℕ
  pub cess_amount : ℕ
  pub tax_amount : ℕ
  pub shipping_total : ℕ
  pub grand_total : ℕ

pub record GstResult : Type 0 where
  pub is_inter_state : Bool
  pub lines : List Line
  pub shipping : Shipping
  pub totals : GstTotals

-- `preppedItems.some((i) => !i.isInclusive)`
abbrev pub some_exclusive : List GstItem → Bool
some_exclusive [] = false
some_exclusive (i ∷ l) = not i.is_inclusive || some_exclusive l

-- `totalDiscount` and `shippingFee` are not negative, as the callers pass them.
unfoldable pub calculate_order_gst :
    Option ℕ → Option ℕ → List GstItem → ℕ → ℕ → Bool → ℕ → GstResult
calculate_order_gst seller customer items total_discount given_fee is_free_shipping shipping_rate =
    let inter_state = is_inter_state seller customer in
    let fee = if is_free_shipping then 0 else given_fee in
    let gross = gross_subtotal_of items in
    let lines = lines_of inter_state (allocate_discounts items total_discount) items in
    let shipping = shipping_of inter_state fee shipping_rate in
    let cgst = sum_by (λ (x : Line). x.cgst_amount) lines + shipping.cgst_amount in
    let sgst = sum_by (λ (x : Line). x.sgst_amount) lines + shipping.sgst_amount in
    let igst = sum_by (λ (x : Line). x.igst_amount) lines + shipping.igst_amount in
    let cess = sum_by (λ (x : Line). x.cess_amount) lines in
    let added =
      if some_exclusive items
      then pos (cgst + sgst + igst + cess) -ℤ pos shipping.total_tax
      else pos 0 in
    record {
      is_inter_state = inter_state;
      lines = lines;
      shipping = shipping;
      totals = record {
        gross_subtotal = gross;
        total_discount = total_discount;
        taxable_amount = sum_by (λ (x : Line). x.net_taxable) lines + fee;
        cgst_amount = cgst;
        sgst_amount = sgst;
        igst_amount = igst;
        cess_amount = cess;
        tax_amount = cgst + sgst + igst + cess;
        shipping_total = shipping.final_total;
        grand_total =
            pos_part (pos gross -ℤ pos total_discount +ℤ pos shipping.final_total +ℤ added);
      };
    }
