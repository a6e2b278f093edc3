-- ===== src/Payments/Verification.antt =====
-- `src/modules/payments/services/paymentVerification.service.ts`. `now` is the time of the call.
use meeo_server.Base.{
  ℕ, Option, none, some, Bool, true, false, not, ◌||◌, List, [], ◌∷◌, ◌++◌, ◌==◌, ltb, length,
  if◌then◌else◌,
}
use meeo_server.Base.Result.{ok, ◌>>=◌, ◌>>◌, pure, raise_if, or_raise, gets}
use meeo_server.Orm.{Orm}
use meeo_server.Store.{
  OrderStatus, same_order_status, Order, Payment, PaymentStatus, is_success, Attempt, AttemptStatus,
  TransactionKind, TransactionStatus, EventKind, State, Service, Error, update_order,
  update_payment, update_attempt, log_history, log_transaction, publish, find_first, when,
  in_transaction,
}
use meeo_server.Inventory.OrderHolds.{commit_order_reservations}
use meeo_server.Orders.Status.{with_status}
use meeo_server.Orders.Fulfillment.{is_unconfirmed}
use meeo_server.Payments.Gateway.{Crypto}

abbrev pub is_payment_of : ℕ → Payment → Bool
is_payment_of order p = p.order == order

abbrev pub is_attempt_of : ℕ → Attempt → Bool
is_attempt_of k a = a.payment == k

-- `orderBy: { attemptNumber: "desc" }, take: 1`
abbrev pub latest : List (ℕ × Attempt) → Option (ℕ × Attempt)
latest [] = none
latest ((k, a) ∷ l) = elim (latest l) [
  | none ↦ some (k, a)
  | some (j, b) ↦ if ltb a.number b.number then some (j, b) else some (k, a)
]

abbrev pub key_of : Option (ℕ × Attempt) → Option ℕ
key_of none = none
key_of (some (k, a)) = some k

-- The fields of a client's callback; texts are lists of bytes.
pub record Callback : Type 0 where
  pub order : ℕ
  pub gateway_order : List ℕ
  pub gateway_payment : List ℕ
  pub signature : List ℕ

-- The check of the signature, which is made if a secret is configured.
unfoldable pub is_forged : Crypto → List ℕ → Callback → Bool
is_forged c [] input = false
is_forged c (b ∷ secret) input =
    let expected =
      c.hmac_sha256 (b ∷ secret) (input.gateway_order ++ (b'|' ∷ input.gateway_payment)) in
    not (length input.signature == length expected)
    || not (c.timing_safe_equal input.signature expected)

-- The status of a ledger row for an administrator's update.
abbrev pub ledger_status : PaymentStatus → TransactionStatus
ledger_status PaymentStatus.success = TransactionStatus.success
ledger_status PaymentStatus.failed = TransactionStatus.failed
ledger_status PaymentStatus.cancelled = TransactionStatus.failed
ledger_status PaymentStatus.processing = TransactionStatus.processing
ledger_status _ = TransactionStatus.pending

abbrev pub ledger_kind : PaymentStatus → TransactionKind
ledger_kind PaymentStatus.refunded = TransactionKind.refund
ledger_kind _ = TransactionKind.charge

abbrev pub is_failed : PaymentStatus → Bool
is_failed PaymentStatus.failed = true
is_failed _ = false

abbrev pub paid_in_full : ℕ → Payment → Payment
paid_in_full now p = record p {
  status = PaymentStatus.success;
  paid = p.amount;
  paid_at = some now;
}

-- The payment after an administrator's update.
abbrev pub revised : ℕ → PaymentStatus → ℕ → Payment → Payment
revised now PaymentStatus.success amount p = record p {
  status = PaymentStatus.success;
  paid = amount;
  paid_at = some now;
}
revised now PaymentStatus.failed amount p = record p {
  status = PaymentStatus.failed;
  failed_at = some now;
}
revised now status amount p = record p { status = status }

-- `input.paidAmount !== undefined ? input.paidAmount : payment.amount`
abbrev pub given_or : Option ℕ → ℕ → ℕ
given_or none d = d
given_or (some a) d = a

module _ (o : Orm) where
  unfoldable pub finish_attempt : ℕ → AttemptStatus → Option (ℕ × Attempt) → Service o (Unit {0})
  finish_attempt now status none = pure tt
  finish_attempt now status (some (k, a)) = do
    update_attempt o k (λ x. record x { status = status; completed_at = some now })
    pure tt

  unfoldable pub remove_cart : Option ℕ → Service o (Unit {0})
  remove_cart none s = (ok tt, s)
  remove_cart (some c) s = (ok tt, record s { carts = o.erase (Unit {0}) c s.carts })

  -- Part D of the transaction: the order becomes CONFIRMED, and its cart is deleted.
  unfoldable pub confirm_paid : ℕ → Option Order → Service o (Unit {0})
  confirm_paid id none = pure tt
  confirm_paid id (some order) =
      when o (not (same_order_status order.status OrderStatus.confirmed)) (do
        update_order o id (with_status OrderStatus.confirmed)
        log_history o (record {
          order = id;
          previous = order.status;
          next = OrderStatus.confirmed;
          changed_by = none;
        })
        remove_cart order.cart)

  -- The callback of the transaction of `verifyPayment`.
  unfoldable pub verify_body :
      ℕ → ℕ × Payment → Option (ℕ × Attempt) → Option Order → Service o (Unit {0})
  verify_body now (k, p) attempt order = do
    update_payment o k (paid_in_full now)
    finish_attempt now AttemptStatus.success attempt
    log_transaction o (record {
      payment = k;
      attempt = key_of attempt;
      kind = TransactionKind.charge;
      status = TransactionStatus.success;
      amount = p.amount;
    })
    confirm_paid p.order order
    commit_order_reservations o p.order
    publish o
        (record { kind = EventKind.order_paid; aggregate = k; order = p.order; amount = p.amount })
    pure tt

  abbrev pub attempt_of : ℕ → State o → Option (ℕ × Attempt)
  attempt_of k s = latest (o.find_many Attempt (is_attempt_of k) s.attempts)

  unfoldable pub verify_found : ℕ → ℕ × Payment → Service o (ℕ × Bool)
  verify_found now (k, p) = do
    attempt ← gets (attempt_of k)
    order ← gets (λ s. o.find Order p.order s.orders)
    in_transaction o (verify_body now (k, p) attempt order)
    pure (k, false)

  -- The payment, and whether it had been verified before.
  unfoldable pub verify_payment : Crypto → List ℕ → ℕ → Callback → Service o (ℕ × Bool)
  verify_payment c secret now input = do
    raise_if (is_forged c secret input) Error.bad_signature
    found ←
        or_raise (← gets (λ s. find_first o (is_payment_of input.order) s.payments))
          Error.payment_not_found
    elim (is_success (found.1).status) [
      | true ↦ pure (found.0, true)
      | false ↦ verify_found now found
    ]

  unfoldable pub failure_body : ℕ → ℕ × Payment → Option (ℕ × Attempt) → Service o (Unit {0})
  failure_body now (k, p) attempt = do
    update_payment o k (λ x. record x { status = PaymentStatus.failed; failed_at = some now })
    finish_attempt now AttemptStatus.failed attempt
    log_transaction o (record {
      payment = k;
      attempt = key_of attempt;
      kind = TransactionKind.charge;
      status = TransactionStatus.failed;
      amount = p.amount;
    })
    publish o
        (record { kind = EventKind.payment_failed; aggregate = k; order = p.order; amount = 0 })
    pure tt

  unfoldable pub fail_found : ℕ → ℕ × Payment → Service o (ℕ × Bool)
  fail_found now (k, p) = do
    attempt ← gets (attempt_of k)
    in_transaction o (failure_body now (k, p) attempt)
    pure (k, true)

  -- The payment, and whether the failure was recorded.
  unfoldable pub record_payment_failure : ℕ → ℕ → Service o (ℕ × Bool)
  record_payment_failure now order = do
    found ←
        or_raise (← gets (λ s. find_first o (is_payment_of order) s.payments))
          Error.payment_not_found
    elim (is_success (found.1).status) [
      | true ↦ pure (found.0, false)
      | false ↦ fail_found now found
    ]

  -- An administrator's SUCCESS, for a payment that has an order.
  unfoldable pub manual_success : ℕ → ℕ → Option ℕ → Payment → Order → Service o (Unit {0})
  manual_success k amount admin p order = do
    when o (is_unconfirmed order.status) (do
      update_order o p.order (with_status OrderStatus.confirmed)
      log_history o (record {
        order = p.order;
        previous = order.status;
        next = OrderStatus.confirmed;
        changed_by = admin;
      })
      pure tt)
    publish o
        (record { kind = EventKind.order_paid; aggregate = k; order = p.order; amount = amount })
    pure tt

  unfoldable pub manual_failure : ℕ → PaymentStatus → Payment → Service o (Unit {0})
  manual_failure k status p = when o (is_failed status) (do
    publish o
        (record { kind = EventKind.payment_failed; aggregate = k; order = p.order; amount = 0 })
    pure tt)

  unfoldable pub manual_effect :
      ℕ → PaymentStatus → ℕ → Option ℕ → Payment → Option Order → Service o (Unit {0})
  manual_effect k status amount admin p none = manual_failure k status p
  manual_effect k status amount admin p (some order) = elim (is_success status) [
    | true ↦ manual_success k amount admin p order
    | false ↦ manual_failure k status p
  ]

  -- The callback of the transaction of `updatePaymentStatus`.
  unfoldable pub manual_body :
      ℕ → ℕ → PaymentStatus → ℕ → Option ℕ → Payment → Option Order → Service o (Unit {0})
  manual_body now k status amount admin p order = do
    update_payment o k (revised now status amount)
    log_transaction o (record {
      payment = k;
      attempt = none;
      kind = ledger_kind status;
      status = ledger_status status;
      amount = amount;
    })
    manual_effect k status amount admin p order

  unfoldable pub update_payment_status :
      ℕ → ℕ → PaymentStatus → Option ℕ → Option ℕ → Service o (Option Payment)
  update_payment_status now k status amount admin = do
    p ← or_raise (← gets (λ s. o.find Payment k s.payments)) Error.payment_not_found
    order ← gets (λ s. o.find Order p.order s.orders)
    in_transaction o (manual_body now k status (given_or amount p.amount) admin p order)
    gets (λ s. o.find Payment k s.payments)
