-- ===== src/Payments/RefundOutcome.antt =====
-- What a refund does and when it is granted (`paymentRefund.service.ts`).
use meeo_server.Base.{
  ℕ, ◌+◌, ◌-◌, ◌≤◌, ◌<◌, ◌≡◌, refl, ◌⊎◌, inl, inr, Option, none, some, Bool, true, false, not, List,
  ◌∷◌, arith, ◌==◌, ==_refl, ltb, leb, if◌then◌else◌, Bool-cases,
}
use mathlib.Core.Option
use meeo_server.Base.Result.{ok, err}
use meeo_server.Orm.{Orm}
use meeo_server.Store.{
  Order, OrderStatus, Payment, HistoryEntry, RefundEntry, RefundId, TransactionEntry,
  TransactionKind, TransactionStatus, OutboxEntry, EventKind, State, Error, find_first,
}
use meeo_server.Orders.Status.{with_status}
use meeo_server.Payments.Gateway.{Reply, Razorpay}
use meeo_server.Payments.Provider.{starts_with, payment_prefix, create_refund}
use meeo_server.Payments.Verification.{key_of, given_or}
use meeo_server.Payments.Refund.{
  payment_text, is_refundable, is_good_attempt_of, after_refund, refund_order, refund_body,
  refund_found, process_refund,
}

-- The balance of a payment, and what a request asks for: all of it, if it names no amount.
abbrev pub balance : Payment → ℕ
balance p = p.paid - p.refunded

module _ (o : Orm) where
  refund_order_lem :
      (full : Bool) (id : ℕ) (user : Option ℕ) (x : Option Order) (s : State o)
      → o.find Order id s.orders ≡ x
      → (t : o.Table Order) × (h : List HistoryEntry) × (refund_order o full id user x s
          ≡ (ok tt, record s { orders = t; history = h }))
        × (o.find Order id t
            ≡ (if full then Option.map (with_status OrderStatus.refunded) x else x))
  unfolding refund_order
  refund_order_lem false id user x s e = (s.orders, s.history, refl, e)
  refund_order_lem true id user none s e = (s.orders, s.history, refl, e)
  refund_order_lem true id user (some order) s e = (
    o.write Order id (with_status OrderStatus.refunded order) s.orders,
    record { order = id; previous = order.status; next = OrderStatus.refunded; changed_by = user }
        ∷ s.history,
    ground arith,
    ground (
      arith,
      o.find-write Order id id (with_status OrderStatus.refunded order) s.orders,
      ==_refl id,
    ),
  )

  -- What a refund of `amount` of the payment `p` leaves: the row counts it, and is REFUNDED if now
  -- all that was paid is refunded and PARTIALLY_REFUNDED otherwise; other payments are as before;
  -- one refund is created, with that number; and the order of a payment that is refunded in full is REFUNDED.
  pub record IsRefunded (amount : ℕ) (user : Option ℕ) (id : RefundId) (k : ℕ) (p : Payment)
      (s s' : State o) : Type 0 where
    pub payments :
        (j : ℕ)
        → o.find Payment j s'.payments
          ≡ (if k == j then some (after_refund amount p) else o.find Payment j s.payments)
    pub refunds :
        s'.refunds
        ≡ record { payment = k; amount = amount; requested_by = user; provider_refund = id }
          ∷ s.refunds
    pub order : o.find Order p.order s'.orders ≡ (
        if leb p.paid (p.refunded + amount)
        then Option.map (with_status OrderStatus.refunded) (o.find Order p.order s.orders)
        else o.find Order p.order s.orders)

  refund_body_lem :
      (amount : ℕ) (user : Option ℕ) (id : RefundId) (k : ℕ) (p : Payment) (attempt : Option ℕ)
      (s : State o)
      → o.find Payment k s.payments ≡ some p
      → (s' : State o) × (refund_body o amount user id k p attempt (o.find Order p.order s.orders) s
          ≡ (ok tt, s'))
        × IsRefunded amount user id k p s s'
  unfolding refund_body
  refund_body_lem amount user id k p attempt s here =
      let full = leb p.paid (p.refunded + amount) in
      let refund : RefundEntry = record {
        payment = k;
        amount = amount;
        requested_by = user;
        provider_refund = id;
      } in
      let entry : TransactionEntry = record {
        payment = k;
        attempt = attempt;
        kind = TransactionKind.refund;
        status = TransactionStatus.success;
        amount = amount;
      } in
      let event : OutboxEntry = record {
        kind = if full then EventKind.payment_refunded else EventKind.payment_partially_refunded;
        aggregate = k;
        order = p.order;
        amount = amount;
      } in
      let s1 : State o = record s {
        payments = o.write Payment k (after_refund amount p) s.payments;
        transactions = entry ∷ s.transactions;
        refunds = refund ∷ s.refunds;
      } in
      let (orders, history, e, moved) =
        refund_order_lem full p.order user (o.find Order p.order s.orders) s1 refl in
      (
        record s1 { orders = orders; history = history; outbox = event ∷ s1.outbox },
        ground arith,
        record {
          payments = λ j. o.find-write Payment j k (after_refund amount p) s.payments;
          refunds = refl;
          order = moved;
        },
      )

  -- A request is granted or refused.
  decide_refund :
      (amount : Option ℕ) (p : Payment)
      → ((is_refundable p.status ≡ true)
          × (0 < given_or amount (balance p))
          × (given_or amount (balance p) ≤ balance p))
        ⊎ ((is_refundable p.status ≡ false)
            ⊎ ((given_or amount (balance p) ≡ 0) ⊎ (balance p < given_or amount (balance p))))
  decide_refund amount p = go (given_or amount (balance p))
    where
      go :
          (d : ℕ)
          → ((is_refundable p.status ≡ true) × (0 < d) × (d ≤ balance p))
            ⊎ ((is_refundable p.status ≡ false) ⊎ ((d ≡ 0) ⊎ (balance p < d)))
      go d = elim (Bool-cases (is_refundable p.status)) [
        | inr a ↦ inr (inl a)
        | inl a ↦ elim (Bool-cases (d == 0)) [
          | inl b ↦ inr (inr (inl (ground arith)))
          | inr b ↦ elim (Bool-cases (ltb (balance p) d)) [
            | inl c ↦ inr (inr (inr (ground arith)))
            | inr c ↦ inl (a, ground arith, ground arith)
          ]
        ]
      ]

  module _ (razorpay : Razorpay) (user : Option ℕ) (k : ℕ) (amount : Option ℕ) (p : Payment)
      (s : State o) where
    abbrev due : ℕ
    due = given_or amount (balance p)

    -- By what the gateway knows the payment.
    abbrev pub known_as : List ℕ
    known_as = payment_text razorpay k (find_first o (is_good_attempt_of k) s.attempts)

    -- The first guard that refuses the request.
    abbrev refusal : Error
    refusal =
        if not (is_refundable p.status)
        then Error.not_refundable p.status
        else if leb p.paid p.refunded
        then Error.fully_refunded
        else if due == 0
        then Error.refund_not_positive
        else Error.refund_exceeds_balance

    -- The gateway was asked to refund the amount, and has issued this number.
    abbrev pub IsIssued : ℕ → Type 0
    IsIssued n =
        (razorpay.is_configured ≡ true)
        × (starts_with payment_prefix known_as ≡ true)
        × (razorpay.refund_call known_as (given_or amount (balance p))
            ≡ Reply.answered true (some n))

    -- The number of the refund: the one that the gateway has issued, or, if it has issued none, a random
    -- one.
    abbrev pub IsNumbered : RefundId → Type 0
    IsNumbered id =
        ((n : ℕ) × IsIssued n × (id ≡ RefundId.issued n))
        ⊎ (((n : ℕ) → ¬ IsIssued n)
            × (id ≡ RefundId.sandbox (razorpay.random known_as (given_or amount (balance p)))))

    numbered :
        (c w : Bool) (x : Reply)
        → razorpay.is_configured ≡ c
        → starts_with payment_prefix known_as ≡ w
        → razorpay.refund_call known_as due ≡ x
        → IsNumbered (create_refund razorpay known_as due)
    unfolding create_refund
    numbered false w x e f g = inr (λ n h. ground (arith, h.0), ground arith)
    numbered true false x e f g = inr (λ n h. ground (arith, h.1), ground arith)
    numbered true true Reply.unreachable e f g = inr (λ n h. ground (arith, h.2), ground arith)
    numbered true true (Reply.answered false y) e f g =
        inr (λ n h. ground (arith, h.2), ground arith)
    numbered true true (Reply.answered true none) e f g =
        inr (λ n h. ground (arith, h.2), ground arith)
    numbered true true (Reply.answered true (some n)) e f g = inl (n, (e, f, g), ground arith)

    -- The request is granted: it answers with the amount, the new status, the new total and the
    -- balance left, and leaves what `IsRefunded` says.
    abbrev pub IsGranted : State o → Type 0
    IsGranted s' =
        (process_refund o razorpay user (some k) amount s ≡ (
          ok (record {
            payment = k;
            amount = due;
            status = (after_refund due p).status;
            total_refunded = p.refunded + due;
            remaining = p.paid - (p.refunded + due);
          }),
          s',
        ))
        × ((id : RefundId) × IsNumbered id × IsRefunded due user id k p s s')

    accept_refund :
        o.find Payment k s.payments ≡ some p
        → is_refundable p.status ≡ true
        → 0 < due
        → due ≤ balance p
        → (s' : State o) × IsGranted s'
    unfolding process_refund refund_found
    accept_refund here r positive within =
        let attempt = key_of (find_first o (is_good_attempt_of k) s.attempts) in
        let id = create_refund razorpay known_as due in
        let (s', e, after) = refund_body_lem due user id k p attempt s here in
        (
          s',
          (
            ground (
              arith,
              o.transaction-settle (State o) Error (Unit {0})
                  (refund_body o due user id k p attempt (o.find Order p.order s.orders)) s,
            ),
            (
              id,
              numbered razorpay.is_configured (starts_with payment_prefix known_as)
                  (razorpay.refund_call known_as due) refl refl refl,
              after,
            ),
          ),
        )

    -- A request for a refund of a payment that is there does one of two things. If the payment is
    -- SUCCESS or PARTIALLY_REFUNDED, and the amount asked for (without one, the balance) is positive
    -- and at most the balance, then it is granted, whatever the gateway answers: it returns the amount,
    -- the new status, the new total and the balance left, and leaves what `IsRefunded` says, with the
    -- number that the gateway has issued, or a random one if it was not asked, could not be reached
    -- or has refused. Otherwise it throws, and the state is as it was.
    pub process_refund_outcome :
        o.find Payment k s.payments ≡ some p
        → ((is_refundable p.status ≡ true)
            × (0 < given_or amount (balance p))
            × (given_or amount (balance p) ≤ balance p)
            × ((s' : State o) × IsGranted s'))
          ⊎ (((is_refundable p.status ≡ false)
                ⊎ ((given_or amount (balance p) ≡ 0) ⊎ (balance p < given_or amount (balance p))))
              × ((e : Error) × (process_refund o razorpay user (some k) amount s ≡ (err e, s))))
    unfolding process_refund refund_found
    process_refund_outcome here = elim (decide_refund amount p) [
      | inl (r, positive, within) ↦ inl (r, positive, within, accept_refund here r positive within)
      | inr why ↦ inr (why, refused_path why)
    ]
      where
        refused_path :
            (is_refundable p.status ≡ false) ⊎ ((due ≡ 0) ⊎ (balance p < due))
            → (e : Error) × (process_refund o razorpay user (some k) amount s ≡ (err e, s))
        refused_path why = elim why [
          | inl a ↦ (refusal, ground arith)
          | inr (inl a) ↦ (refusal, ground arith)
          | inr (inr a) ↦ (refusal, ground arith)
        ]
