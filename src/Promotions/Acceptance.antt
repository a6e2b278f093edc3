-- ===== src/Promotions/Acceptance.antt =====
-- What `checkEligibility` accepts (`promotionEngine.service.ts`, `src/modules/promotions/services`).
use meeo_server.Base.{
  ℕ, ◌≤◌, ◌<◌, ◌≡◌, ◌≢◌, ◌↔◌, refl, sym, ◌⊎◌, inl, inr, Option, none, some, Bool, true, false, not,
  ◌&&◌, ◌||◌, List, [], ◌∷◌, arith, ◌==◌, ltb, Option-cases, Bool-cases, All, contains,
}
use meeo_server.Promotions.Rules.{
  PromotionStatus, is_active_promotion, Segment, is_first_time, is_registered, is_returning, is_vip,
  Promotion, Item, Cart, Eligibility,
}
use meeo_server.Promotions.Eligibility.{
  number_or, is_given, is_empty_list, minute_of_day, day_of_week, is_before, is_after, is_outside,
  is_exhausted, falls_short, is_vip_cart, is_match, get_matching_items, total_of, units_of,
  refusal_of, check_items, check_eligibility,
}

-- The promotion is active, its time has come and has not passed, the hour and the day are among its
-- own, if it has any, and it is not used up.
pub record IsLive (p : Promotion) (now : ℕ) : Type 0 where
  pub active : p.status ≡ PromotionStatus.active
  pub started : (t : ℕ) → p.starts_at ≡ some t → t ≤ now
  pub running : (t : ℕ) → p.ends_at ≡ some t → now ≤ t
  pub hours :
      (a b : ℕ)
      → p.time_of_day_start ≡ some a
      → p.time_of_day_end ≡ some b
      → (a ≤ minute_of_day now) × (minute_of_day now ≤ b)
  pub day : (p.days_of_week ≡ []) ⊎ (contains (day_of_week now) p.days_of_week ≡ true)
  pub available : (n : ℕ) → p.total_usage_limit ≡ some n → p.current_usage_count < n

-- The customer is one of those that the promotion is for: with no order yet, if it is for first orders or
-- first-time buyers; logged in, if it is for registered ones; with an order, if it is for
-- returning ones; and a VIP, if it is for VIPs.
pub record IsMeantFor (p : Promotion) (cart : Cart) : Type 0 where
  pub first_order : p.first_order_only ≡ true → number_or cart.order_count 0 ≡ 0
  pub first_time : p.segment ≡ Segment.first_time_buyer → number_or cart.order_count 0 ≡ 0
  pub registered : p.segment ≡ Segment.registered → cart.user ≢ none
  pub returning : p.segment ≡ Segment.returning → 0 < number_or cart.order_count 0
  pub vip : p.segment ≡ Segment.vip → cart.segment ≡ some Segment.vip

-- The items are those of the cart that match, not none, and reach the minimum amounts.
pub record IsCovered (p : Promotion) (cart : Cart) (matched : List Item) (subtotal : ℕ)
    : Type 0 where
  pub items : matched ≡ get_matching_items p cart.items
  pub matching : All (λ i. is_match p i ≡ true) matched
  pub some_match : matched ≢ []
  pub sum : subtotal ≡ total_of matched
  pub enough : (m : ℕ) → p.min_order_subtotal ≡ some m → m ≤ subtotal
  pub units : (m : ℕ) → p.min_quantity ≡ some m → m ≤ units_of matched

matching_items-All :
    (p : Promotion) (l : List Item) → All (λ i. is_match p i ≡ true) (get_matching_items p l)
unfolding get_matching_items
matching_items-All p [] = tt
matching_items-All p (i ∷ l) = ground (arith, matching_items-All p l)

active_iff : (x : PromotionStatus) → (is_active_promotion x ≡ true) ↔ (x ≡ PromotionStatus.active)
active_iff PromotionStatus.draft = (λ h. cc, λ h. cc)
active_iff PromotionStatus.scheduled = (λ h. cc, λ h. cc)
active_iff PromotionStatus.active = (λ h. refl, λ h. refl)
active_iff PromotionStatus.paused = (λ h. cc, λ h. cc)
active_iff PromotionStatus.expired = (λ h. cc, λ h. cc)
active_iff PromotionStatus.archived = (λ h. cc, λ h. cc)

vip_cart_iff : (x : Option Segment) → (is_vip_cart x ≡ true) ↔ (x ≡ some Segment.vip)
vip_cart_iff none = (λ h. cc, λ h. cc)
vip_cart_iff (some Segment.all) = (λ h. cc, λ h. cc)
vip_cart_iff (some Segment.first_time_buyer) = (λ h. cc, λ h. cc)
vip_cart_iff (some Segment.vip) = (λ h. refl, λ h. refl)
vip_cart_iff (some Segment.returning) = (λ h. cc, λ h. cc)
vip_cart_iff (some Segment.registered) = (λ h. cc, λ h. cc)

before_iff : (now : ℕ) (x : Option ℕ) → (is_before now x ≡ false) ↔ ((t : ℕ) → x ≡ some t → t ≤ now)
before_iff now none = (λ h t e. cc, λ h. refl)
before_iff now (some a) = (λ h t e. ground arith, λ h. ground (arith, h a refl))

after_iff : (now : ℕ) (x : Option ℕ) → (is_after now x ≡ false) ↔ ((t : ℕ) → x ≡ some t → now ≤ t)
after_iff now none = (λ h t e. cc, λ h. refl)
after_iff now (some a) = (λ h t e. ground arith, λ h. ground (arith, h a refl))

outside_iff :
    (m : ℕ) (x y : Option ℕ)
    → (is_outside m x y ≡ false) ↔ ((a b : ℕ) → x ≡ some a → y ≡ some b → (a ≤ m) × (m ≤ b))
outside_iff m none y = (λ h a b e f. cc, λ h. refl)
outside_iff m (some c) none = (λ h a b e f. cc, λ h. refl)
outside_iff m (some c) (some d) = (λ h a b e f. ground arith, λ h. ground (arith, h c d refl refl))

exhausted_iff : (x : Option ℕ) (u : ℕ) → (is_exhausted x u ≡ false) ↔ ((n : ℕ) → x ≡ some n → u < n)
exhausted_iff none u = (λ h n e. cc, λ h. refl)
exhausted_iff (some l) u = (λ h n e. ground arith, λ h. ground (arith, h l refl))

day_iff :
    (l : List ℕ) (d : ℕ)
    → ((not (is_empty_list l) && not (contains d l)) ≡ false) ↔ ((l ≡ []) ⊎ (contains d l ≡ true))
day_iff [] d = (λ h. inl refl, λ h. refl)
day_iff (x ∷ l) d = elim (Bool-cases (contains d (x ∷ l))) [
  | inl e ↦ (λ h. inr e, λ h. rw e refl)
  | inr e ↦ (λ h. absurd (ground arith), λ h. elim h [ inl f ↦ cc | inr f ↦ cc ])
]

short_iff : (x : Option ℕ) (n : ℕ) → (falls_short x n ≡ false) ↔ ((m : ℕ) → x ≡ some m → m ≤ n)
short_iff none n = (λ h m e. cc, λ h. refl)
short_iff (some l) n = (λ h m e. ground arith, λ h. ground (arith, h l refl))

-- The guards on the customer.
abbrev Passes : Promotion → Cart → Type 0
Passes p cart =
    let orders = number_or cart.order_count 0 in
    (((p.first_order_only || is_first_time p.segment) && ltb 0 orders) ≡ false)
    × ((is_registered p.segment && not (is_given cart.user)) ≡ false)
    × ((is_returning p.segment && (orders == 0)) ≡ false)
    × ((is_vip p.segment && not (is_vip_cart cart.segment)) ≡ false)

Passes-iff : (p : Promotion) (cart : Cart) → Passes p cart ↔ IsMeantFor p cart
Passes-iff p cart = (
  λ (a, b, c, d). record {
    first_order = λ h. ground arith;
    first_time = λ h. ground arith;
    registered = λ h e. ground arith;
    returning = λ h. ground arith;
    vip = λ h. ground (arith, vip_cart_iff cart.segment);
  },
  λ h. back p.segment refl p.first_order_only refl cart.user refl h,
)
  where
    back :
        (x : Segment)
        → p.segment ≡ x
        → (b : Bool) → p.first_order_only ≡ b
        → (u : Option ℕ) → cart.user ≡ u
        → IsMeantFor p cart
        → Passes p cart
    back Segment.all e b f u g h =
        (ground arith, ground arith, ground arith, ground (arith, vip_cart_iff cart.segment))
    back Segment.first_time_buyer e b f u g h =
        (ground arith, ground arith, ground arith, ground (arith, vip_cart_iff cart.segment))
    back Segment.vip e b f u g h =
        (ground arith, ground arith, ground arith, ground (arith, vip_cart_iff cart.segment))
    back Segment.returning e b f u g h =
        (ground arith, ground arith, ground arith, ground (arith, vip_cart_iff cart.segment))
    back Segment.registered e b f none g h = absurd (h.registered e g)
    back Segment.registered e b f (some v) g h =
        (ground arith, ground arith, ground arith, ground (arith, vip_cart_iff cart.segment))

covered_lem :
    (p : Promotion) (cart : Cart) (matched : List Item) (subtotal : ℕ)
    → check_items p (get_matching_items p cart.items) ≡ Eligibility.eligible matched subtotal
    → IsCovered p cart matched subtotal
unfolding check_items
covered_lem p cart matched subtotal e =
    let same : matched ≡ get_matching_items p cart.items = ground arith in
    record {
      items = same;
      matching = rw same (matching_items-All p cart.items);
      some_match = λ empty. ground arith;
      sum = ground arith;
      enough = λ m h. ground arith;
      units = λ m h. ground arith;
    }

-- The guards on the promotion and the time.
abbrev IsTimely : Promotion → ℕ → Type 0
IsTimely p now =
    (not (is_active_promotion p.status) ≡ false)
    × (is_before now p.starts_at ≡ false)
    × (is_after now p.ends_at ≡ false)
    × (is_outside (minute_of_day now) p.time_of_day_start p.time_of_day_end ≡ false)
    × ((not (is_empty_list p.days_of_week) && not (contains (day_of_week now) p.days_of_week))
        ≡ false)
    × (is_exhausted p.total_usage_limit p.current_usage_count ≡ false)

IsTimely-iff : (p : Promotion) (now : ℕ) → IsTimely p now ↔ IsLive p now
IsTimely-iff p now = (
  λ (a, b, c, d, e, f). record {
    active = (active_iff p.status).0 (ground arith);
    started = (before_iff now p.starts_at).0 b;
    running = (after_iff now p.ends_at).0 c;
    hours = (outside_iff (minute_of_day now) p.time_of_day_start p.time_of_day_end).0 d;
    day = (day_iff p.days_of_week (day_of_week now)).0 e;
    available = (exhausted_iff p.total_usage_limit p.current_usage_count).0 f;
  },
  λ h. (
    ground (arith, (active_iff p.status).1 h.active),
    (before_iff now p.starts_at).1 h.started,
    (after_iff now p.ends_at).1 h.running,
    (outside_iff (minute_of_day now) p.time_of_day_start p.time_of_day_end).1 h.hours,
    (day_iff p.days_of_week (day_of_week now)).1 h.day,
    (exhausted_iff p.total_usage_limit p.current_usage_count).1 h.available,
  ),
)

refusal_iff :
    (p : Promotion) (cart : Cart) (now : ℕ)
    → (refusal_of p cart now ≡ none) ↔ (IsTimely p now × Passes p cart)
unfolding refusal_of
refusal_iff p cart now = (
  λ h. (
    (ground arith, ground arith, ground arith, ground arith, ground arith, ground arith),
    (ground arith, ground arith, ground arith, ground arith),
  ),
  λ ((a, b, c, d, e, f), (g, h, i, j)). rw (a, b, c, d, e, f, g, h, i, j) refl,
)

covered_back :
    (p : Promotion) (cart : Cart) (matched : List Item) (subtotal : ℕ)
    → IsCovered p cart matched subtotal
    → check_items p (get_matching_items p cart.items) ≡ Eligibility.eligible matched subtotal
unfolding check_items
covered_back p cart matched subtotal h =
    let enough = (short_iff p.min_order_subtotal subtotal).1 h.enough in
    let units = (short_iff p.min_quantity (units_of matched)).1 h.units in
    go (get_matching_items p cart.items) (sym h.items) enough units
  where
    go :
        (l : List Item)
        → l ≡ matched
        → falls_short p.min_order_subtotal subtotal ≡ false
        → falls_short p.min_quantity (units_of matched) ≡ false
        → check_items p l ≡ Eligibility.eligible matched subtotal
    go [] e enough units = absurd (h.some_match (sym e))
    go (i ∷ l) e enough units = ground (arith, h.sum)

-- A promotion is found eligible for a cart, with some items and a subtotal, exactly when it is active
-- and not used up, and the time is within its dates, hours and days; the customer is one that it is
-- meant for (first orders, logged in, returning, VIP); and the items are all those of the cart that
-- match it, at least one, and the subtotal is their sum, which reach the promotion's minimum
-- subtotal and quantity.
pub check_eligibility_iff :
    (p : Promotion) (cart : Cart) (now : ℕ) (matched : List Item) (subtotal : ℕ)
    → (check_eligibility p cart now ≡ Eligibility.eligible matched subtotal)
      ↔ (IsLive p now × IsMeantFor p cart × IsCovered p cart matched subtotal)
unfolding check_eligibility
check_eligibility_iff p cart now matched subtotal = (
  λ e. elim (Option-cases (refusal_of p cart now)) [
    | inl accepted ↦
        let (timely, meant) = (refusal_iff p cart now).0 accepted in
        (
          (IsTimely-iff p now).0 timely,
          (Passes-iff p cart).0 meant,
          covered_lem p cart matched subtotal (ground arith),
        )
    | inr (reason, refused) ↦ absurd (ground arith)
  ],
  λ (live, meant, covered).
      let accepted =
        (refusal_iff p cart now).1 ((IsTimely-iff p now).1 live, (Passes-iff p cart).1 meant) in
      rw (check_eligibility, accepted) (covered_back p cart matched subtotal covered),
)
