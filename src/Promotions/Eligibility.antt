-- ===== src/Promotions/Eligibility.antt =====
-- `checkEligibility` and `getMatchingItems` of `promotionEngine.service.ts`
-- (`src/modules/promotions/services`).
use meeo_server.Base.{
  ℕ, ◌+◌, ◌/◌, ◌%◌, Bool, true, false, not, ◌&&◌, ◌||◌, Option, none, some, List, [], ◌∷◌, ◌==◌,
  ltb, leb, if◌then◌else◌, contains, sum_by,
}
use meeo_server.Promotions.Rules.{
  is_active_promotion, Segment, is_first_time, is_registered, is_returning, is_vip, Promotion, Item,
  Cart, Reason, Eligibility,
}

-- `value ?? default`
abbrev pub number_or : Option ℕ → ℕ → ℕ
number_or none d = d
number_or (some n) d = n

abbrev pub is_given : Option ℕ → Bool
is_given none = false
is_given (some n) = true

abbrev pub is_empty_list : {A : Type 0} → List A → Bool
is_empty_list [] = true
is_empty_list (x ∷ l) = false

abbrev pub is_listed : Option ℕ → List ℕ → Bool
is_listed none l = false
is_listed (some k) l = contains k l

-- `getUTCHours` and `getUTCMinutes`, of milliseconds since 1970, as minutes after midnight.
abbrev pub minute_of_day : ℕ → ℕ
minute_of_day now = now / 60_000 % 1440

-- `getUTCDay`: the first of January 1970 was a Thursday.
abbrev pub day_of_week : ℕ → ℕ
day_of_week now = (now / 86_400_000 + 4) % 7

abbrev pub is_before : ℕ → Option ℕ → Bool
is_before now none = false
is_before now (some t) = ltb now t

abbrev pub is_after : ℕ → Option ℕ → Bool
is_after now none = false
is_after now (some t) = ltb t now

-- The time of day is outside of a window, if both ends are given.
abbrev pub is_outside : ℕ → Option ℕ → Option ℕ → Bool
is_outside m none b = false
is_outside m (some a) none = false
is_outside m (some a) (some b) = ltb m a || ltb b m

abbrev pub is_exhausted : Option ℕ → ℕ → Bool
is_exhausted none n = false
is_exhausted (some l) n = leb l n

-- `promo.minQuantity && total < promo.minQuantity`, and so for the subtotal.
abbrev pub falls_short : Option ℕ → ℕ → Bool
falls_short none n = false
falls_short (some m) n = ltb n m

abbrev pub is_vip_cart : Option Segment → Bool
is_vip_cart none = false
is_vip_cart (some s) = is_vip s

-- The callback of `getMatchingItems`.
unfoldable pub is_match : Promotion → Item → Bool
is_match p item =
    let untargeted =
      is_empty_list p.target_products
      && is_empty_list p.target_categories
      && is_empty_list p.target_brands in
    not (contains item.product p.excluded_products)
    && not (is_listed item.category p.excluded_categories)
    && (untargeted
        || contains item.product p.target_products
        || is_listed item.category p.target_categories
        || is_listed item.brand p.target_brands)

unfoldable pub get_matching_items : Promotion → List Item → List Item
get_matching_items p [] = []
get_matching_items p (item ∷ l) =
    let rest = get_matching_items p l in if is_match p item then item ∷ rest else rest

abbrev pub total_of : List Item → ℕ
total_of l = sum_by (λ (i : Item). i.line_total) l

abbrev pub units_of : List Item → ℕ
units_of l = sum_by (λ (i : Item). i.quantity) l

-- The checks on the promotion, the time and the customer.
unfoldable pub refusal_of : Promotion → Cart → ℕ → Option Reason
refusal_of p cart now =
    let orders = number_or cart.order_count 0 in
    if not (is_active_promotion p.status)
    then some Reason.not_active
    else if is_before now p.starts_at
    then some Reason.not_started
    else if is_after now p.ends_at
    then some Reason.expired
    else if is_outside (minute_of_day now) p.time_of_day_start p.time_of_day_end
    then some Reason.outside_hours
    else if not (is_empty_list p.days_of_week) && not (contains (day_of_week now) p.days_of_week)
    then some Reason.wrong_day
    else if is_exhausted p.total_usage_limit p.current_usage_count
    then some Reason.used_up
    else if (p.first_order_only || is_first_time p.segment) && ltb 0 orders
    then some Reason.first_orders_only
    else if is_registered p.segment && not (is_given cart.user)
    then some Reason.login_required
    else if is_returning p.segment && (orders == 0)
    then some Reason.returning_only
    else if is_vip p.segment && not (is_vip_cart cart.segment)
    then some Reason.vip_only
    else none

-- The checks on the items that match.
unfoldable pub check_items : Promotion → List Item → Eligibility
check_items p matched =
    if is_empty_list matched
    then Eligibility.ineligible Reason.no_match
    else if falls_short p.min_order_subtotal (total_of matched)
    then Eligibility.ineligible Reason.below_subtotal
    else if falls_short p.min_quantity (units_of matched)
    then Eligibility.ineligible Reason.too_few
    else Eligibility.eligible matched (total_of matched)

unfoldable pub check_eligibility : Promotion → Cart → ℕ → Eligibility
check_eligibility p cart now = elim (refusal_of p cart now) [
  | some reason ↦ Eligibility.ineligible reason
  | none ↦ check_items p (get_matching_items p cart.items)
]
