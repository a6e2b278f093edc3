-- ===== src/Orders/Transitions.antt =====
-- The state machine of an order: `ALLOWED_ORDER_TRANSITIONS` and `validateStatusTransition` of
-- `src/modules/orders/services/orderStatus.service.ts`.
use meeo_server.Base.{
  ℕ, ◌+◌, ◌≤◌, ◌<◌, ◌≡◌, refl, sym, ap, ◌∙◌, Bool-cases, ◌==◌, ◌↔◌, ◌⊎◌, inl, inr, Bool, true,
  false, ◌||◌, List, [], ◌∷◌, arith,
}
use meeo_server.Store.{OrderStatus, order_rank, same_order_status}

unfoldable pub allowed_from : OrderStatus → List OrderStatus
allowed_from OrderStatus.pending =
    OrderStatus.payment_pending ∷ OrderStatus.confirmed ∷ OrderStatus.cancelled
    ∷ OrderStatus.expired ∷ []
allowed_from OrderStatus.payment_pending =
    OrderStatus.confirmed ∷ OrderStatus.pending ∷ OrderStatus.cancelled ∷ OrderStatus.expired ∷ []
allowed_from OrderStatus.confirmed =
    OrderStatus.processing ∷ OrderStatus.cancelled ∷ OrderStatus.refunded ∷ []
allowed_from OrderStatus.processing =
    OrderStatus.shipped ∷ OrderStatus.cancelled ∷ OrderStatus.refunded ∷ []
allowed_from OrderStatus.shipped =
    OrderStatus.delivered ∷ OrderStatus.cancelled ∷ OrderStatus.refunded ∷ []
allowed_from OrderStatus.delivered = OrderStatus.refunded ∷ []
allowed_from OrderStatus.cancelled = []
allowed_from OrderStatus.expired = []
allowed_from OrderStatus.refunded = []

-- `allowed.includes(newStatus)`
abbrev pub includes : List OrderStatus → OrderStatus → Bool
includes [] a = false
includes (b ∷ l) a = same_order_status b a || includes l a

-- `validateStatusTransition` returns (`true`) or throws (`false`).
unfoldable pub is_valid_transition : OrderStatus → OrderStatus → Bool
is_valid_transition previous next =
    same_order_status previous next || includes (allowed_from previous) next

-- An independent reading of the lifecycle: checkout, then fulfilment one stage at a time, with the
-- ways out of each stage.
pub data IsMove : OrderStatus → OrderStatus → Type 0 where
  pay_later : IsMove OrderStatus.pending OrderStatus.payment_pending
  pay_again : IsMove OrderStatus.payment_pending OrderStatus.pending
  confirm : {a : OrderStatus} → order_rank a ≤ 1 → IsMove a OrderStatus.confirmed
  process : IsMove OrderStatus.confirmed OrderStatus.processing
  ship : IsMove OrderStatus.processing OrderStatus.shipped
  deliver : IsMove OrderStatus.shipped OrderStatus.delivered
  cancel : {a : OrderStatus} → order_rank a ≤ 4 → IsMove a OrderStatus.cancelled
  expire : {a : OrderStatus} → order_rank a ≤ 1 → IsMove a OrderStatus.expired
  refund : {a : OrderStatus} → 2 ≤ order_rank a → order_rank a ≤ 5 → IsMove a OrderStatus.refunded

-- How far an order has come: checkout, the four stages of fulfilment, and the end.
abbrev pub stage : OrderStatus → ℕ
stage OrderStatus.pending = 0
stage OrderStatus.payment_pending = 0
stage OrderStatus.confirmed = 1
stage OrderStatus.processing = 2
stage OrderStatus.shipped = 3
stage OrderStatus.delivered = 4
stage _ = 5

move_allowed : {a b : OrderStatus} → IsMove a b → includes (allowed_from a) b ≡ true
unfolding allowed_from
move_allowed pay_later = refl
move_allowed pay_again = refl
move_allowed (confirm {a} h) = ground arith
move_allowed process = refl
move_allowed ship = refl
move_allowed deliver = refl
move_allowed (cancel {a} h) = ground arith
move_allowed (expire {a} h) = ground arith
move_allowed (refund {a} h k) = ground arith

allowed-IsMove : (a b : OrderStatus) → includes (allowed_from a) b ≡ true → IsMove a b
unfolding allowed_from
allowed-IsMove OrderStatus.pending OrderStatus.payment_pending h = pay_later
allowed-IsMove OrderStatus.pending OrderStatus.confirmed h = confirm (omega arith)
allowed-IsMove OrderStatus.pending OrderStatus.cancelled h = cancel (omega arith)
allowed-IsMove OrderStatus.pending OrderStatus.expired h = expire (omega arith)
allowed-IsMove OrderStatus.payment_pending OrderStatus.confirmed h = confirm (omega arith)
allowed-IsMove OrderStatus.payment_pending OrderStatus.pending h = pay_again
allowed-IsMove OrderStatus.payment_pending OrderStatus.cancelled h = cancel (omega arith)
allowed-IsMove OrderStatus.payment_pending OrderStatus.expired h = expire (omega arith)
allowed-IsMove OrderStatus.confirmed OrderStatus.processing h = process
allowed-IsMove OrderStatus.confirmed OrderStatus.cancelled h = cancel (omega arith)
allowed-IsMove OrderStatus.confirmed OrderStatus.refunded h = refund (omega arith) (omega arith)
allowed-IsMove OrderStatus.processing OrderStatus.shipped h = ship
allowed-IsMove OrderStatus.processing OrderStatus.cancelled h = cancel (omega arith)
allowed-IsMove OrderStatus.processing OrderStatus.refunded h = refund (omega arith) (omega arith)
allowed-IsMove OrderStatus.shipped OrderStatus.delivered h = deliver
allowed-IsMove OrderStatus.shipped OrderStatus.cancelled h = cancel (omega arith)
allowed-IsMove OrderStatus.shipped OrderStatus.refunded h = refund (omega arith) (omega arith)
allowed-IsMove OrderStatus.delivered OrderStatus.refunded h = refund (omega arith) (omega arith)
allowed-IsMove _ _ h = cc

pub same_eq : (a b : OrderStatus) → same_order_status a b ≡ true → a ≡ b
same_eq a b h = ground arith

-- `validateStatusTransition` accepts a new status exactly if it is the old one or a move of the
-- lifecycle leads to it.
pub valid_transition_iff :
    (a b : OrderStatus) → (is_valid_transition a b ≡ true) ↔ ((a ≡ b) ⊎ IsMove a b)
unfolding is_valid_transition
valid_transition_iff a b = (
  λ h. elim (Bool-cases (same_order_status a b)) [
    | inl same ↦ inl (same_eq a b same)
    | inr other ↦ inr (allowed-IsMove a b (ground arith))
  ],
  λ h. elim h [ inl e ↦ ground arith | inr m ↦ ground (arith, move_allowed m) ],
)

-- A life of an order from one status to another, with the statuses that it has entered.
pub data Trace : OrderStatus → OrderStatus → List OrderStatus → Type 0 where
  here : {a : OrderStatus} → Trace a a []
  then :
      {a b c : OrderStatus} {l : List OrderStatus}
      → is_valid_transition a b ≡ true
      → Trace b c l
      → Trace a c (b ∷ l)

abbrev pub has_stage : ℕ → List OrderStatus → Bool
has_stage k [] = false
has_stage k (a ∷ l) = stage a == k || has_stage k l

move_stage :
    {a b : OrderStatus}
    → IsMove a b
    → (stage a ≤ stage b) × ((stage b ≤ stage a + 1) ⊎ (stage b ≡ 5))
move_stage pay_later = omega arith
move_stage pay_again = omega arith
move_stage (confirm {a} h) = ground arith
move_stage process = omega arith
move_stage ship = omega arith
move_stage deliver = omega arith
move_stage (cancel {a} h) = ground arith
move_stage (expire {a} h) = ground arith
move_stage (refund {a} h k) = ground arith

valid_stage :
    (a b : OrderStatus)
    → is_valid_transition a b ≡ true
    → (stage a ≤ stage b) × ((stage b ≤ stage a + 1) ⊎ (stage b ≡ 5))
valid_stage a b h = elim ((valid_transition_iff a b).0 h) [
  | inl e ↦ let e' : stage a ≡ stage b = ap stage e in omega arith
  | inr m ↦ move_stage m
]

stage_mono : {a b : OrderStatus} {l : List OrderStatus} → Trace a b l → stage a ≤ stage b
stage_mono here = omega arith
stage_mono (then {a} {b} h t) = omega (arith, (valid_stage a b h).0, stage_mono t)

-- No stage of fulfilment is skipped: on every way of valid transitions from one status to another
-- that is not an end, each stage after the first one's, up to and with the last one's, is entered.
-- So an order is delivered only after it was confirmed, processed and shipped.
pub no_stage_skipped :
    {a b : OrderStatus} {l : List OrderStatus}
    → Trace a b l
    → stage b ≤ 4
    → (k : ℕ) → stage a < k
    → k ≤ stage b
    → has_stage k l ≡ true
no_stage_skipped here h k p q = absurd (omega arith)
no_stage_skipped (then {a} {b} v t) h k p q =
    ground (arith, valid_stage a b v, stage_mono t, no_stage_skipped t h k)

-- An order that is cancelled, expired or refunded stays so, whatever valid transitions follow.
pub ended_order_stays :
    {a b : OrderStatus} {l : List OrderStatus} → Trace a b l → stage a ≡ 5 → b ≡ a
ended_order_stays here h = refl
ended_order_stays (then {a} {b} v t) h = elim ((valid_transition_iff a b).0 v) [
  | inl e ↦ ended_order_stays t (ap stage (sym e) ∙ h) ∙ sym e
  | inr m ↦ absurd (no_move m h)
]
  where
    no_move : {x y : OrderStatus} → IsMove x y → ¬ (stage x ≡ 5)
    no_move pay_later e = omega arith
    no_move pay_again e = omega arith
    no_move (confirm {a = x} k) e = ground arith
    no_move process e = omega arith
    no_move ship e = omega arith
    no_move deliver e = omega arith
    no_move (cancel {a = x} k) e = ground arith
    no_move (expire {a = x} k) e = ground arith
    no_move (refund {a = x} k j) e = ground arith
