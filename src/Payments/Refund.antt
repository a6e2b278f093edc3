-- ===== src/Payments/Refund.antt =====
-- `src/modules/payments/services/paymentRefund.service.ts`. Amounts are whole hundredths, so the
-- roundings to two decimals of the source change nothing.
use meeo_server.Base.{
  ℕ, ◌+◌, ◌-◌, Option, none, some, List, ◌∷◌, Bool, true, false, not, ◌&&◌, ◌==◌, ltb, leb,
  if◌then◌else◌,
}
use meeo_server.Base.Result.{err, ◌>>=◌, ◌>>◌, pure, raise_if, or_raise, gets}
use meeo_server.Orm.{Orm}
use meeo_server.Store.{
  OrderStatus, Order, Payment, PaymentStatus, Attempt, is_attempt_success, TransactionKind,
  TransactionStatus, EventKind, RefundId, Service, Error, update_order, update_payment, log_history,
  log_transaction, log_refund, publish, find_first, in_transaction,
}
use meeo_server.Orders.Status.{with_status}
use meeo_server.Payments.Gateway.{Razorpay}
use meeo_server.Payments.Provider.{create_refund}
use meeo_server.Payments.Verification.{key_of, given_or}

abbrev pub is_refundable : PaymentStatus → Bool
is_refundable PaymentStatus.success = true
is_refundable PaymentStatus.partially_refunded = true
is_refundable _ = false

abbrev pub is_good_attempt_of : ℕ → Attempt → Bool
is_good_attempt_of k a = a.payment == k && is_attempt_success a.status

-- `successfulAttempt?.providerPaymentId || payment.id`
abbrev pub payment_text : Razorpay → ℕ → Option (ℕ × Attempt) → List ℕ
payment_text g k none = g.text_of_payment k
payment_text g k (some (j, a)) = elim a.provider_payment [
  | some (b ∷ text) ↦ b ∷ text
  | _ ↦ g.text_of_payment k
]

-- The payment after a refund.
abbrev pub after_refund : ℕ → Payment → Payment
after_refund amount p = record p {
  refunded = p.refunded + amount;
  status =
      if leb p.paid (p.refunded + amount)
      then PaymentStatus.refunded
      else PaymentStatus.partially_refunded;
}

pub record RefundReply : Type 0 where
  pub payment : ℕ
  pub amount : ℕ
  pub status : PaymentStatus
  pub total_refunded : ℕ
  pub remaining : ℕ

module _ (o : Orm) where
  -- Part D of the transaction: a full refund moves the order to REFUNDED.
  unfoldable pub refund_order : Bool → ℕ → Option ℕ → Option Order → Service o (Unit {0})
  refund_order false id user order = pure tt
  refund_order true id user none = pure tt
  refund_order true id user (some order) = do
    update_order o id (with_status OrderStatus.refunded)
    log_history o (record {
      order = id;
      previous = order.status;
      next = OrderStatus.refunded;
      changed_by = user;
    })
    pure tt

  unfoldable pub refund_body :
      ℕ → Option ℕ → RefundId → ℕ → Payment → Option ℕ → Option Order → Service o (Unit {0})
  refund_body amount user id k p attempt order =
      let full = leb p.paid (p.refunded + amount) in
      do
        log_refund o
            (record { payment = k; amount = amount; requested_by = user; provider_refund = id })
        log_transaction o (record {
          payment = k;
          attempt = attempt;
          kind = TransactionKind.refund;
          status = TransactionStatus.success;
          amount = amount;
        })
        update_payment o k (λ x. record x {
          refunded = (after_refund amount p).refunded;
          status = (after_refund amount p).status;
        })
        refund_order full p.order user order
        publish o (record {
          kind = if full then EventKind.payment_refunded else EventKind.payment_partially_refunded;
          aggregate = k;
          order = p.order;
          amount = amount;
        })
        pure tt

  -- A refund of a payment that was found, of an amount in hundredths; without one, of all that is
  -- left.
  unfoldable pub refund_found : Razorpay → Option ℕ → ℕ → Option ℕ → Payment → Service o RefundReply
  refund_found razorpay user k amount p =
      let left = p.paid - p.refunded in
      let due = given_or amount left in
      do
        raise_if (not (is_refundable p.status)) (Error.not_refundable p.status)
        raise_if (leb p.paid p.refunded) Error.fully_refunded
        raise_if (due == 0) Error.refund_not_positive
        raise_if (ltb left due) Error.refund_exceeds_balance
        attempt ← gets (λ s. find_first o (is_good_attempt_of k) s.attempts)
        order ← gets (λ s. o.find Order p.order s.orders)
        let id = create_refund razorpay (payment_text razorpay k attempt) due
        in_transaction o (refund_body due user id k p (key_of attempt) order)
        pure (record {
          payment = k;
          amount = due;
          status = (after_refund due p).status;
          total_refunded = p.refunded + due;
          remaining = p.paid - (p.refunded + due);
        })

  unfoldable pub process_refund : Razorpay → Option ℕ → Option ℕ → Option ℕ → Service o RefundReply
  process_refund razorpay user none amount s = (err Error.payment_id_required, s)
  process_refund razorpay user (some k) amount s =
      (do
        p ← or_raise (← gets (λ s. o.find Payment k s.payments)) Error.payment_not_found
        refund_found razorpay user k amount p)
        s
