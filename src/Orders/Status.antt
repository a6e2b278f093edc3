-- ===== src/Orders/Status.antt =====
-- `src/modules/orders/services/orderStatus.service.ts`. `now` is the time of the call; the order
-- that a call returns is the row, without the relations that the response adds.
use meeo_server.Base.{ℕ, Option, none, some, Bool, true, false, not, ◌&&◌, ◌||◌, ◌==◌}
use meeo_server.Base.Result.{◌>>=◌, ◌>>◌, pure, raise_if, or_raise, gets}
use meeo_server.Orm.{Orm}
use meeo_server.Store.{
  OrderStatus, same_order_status, Order, Payment, PaymentStatus, is_payment_pending, is_cod,
  TransactionKind, TransactionStatus, EventKind, Service, Error, update_order, update_payment,
  update_payments, log_history, log_transaction, publish, find_first, when, in_transaction,
}
use meeo_server.Inventory.OrderHolds.{release_order_reservations}
use meeo_server.Orders.Transitions.{is_valid_transition}

abbrev pub is_pending_cod : ℕ → Payment → Bool
is_pending_cod id p = p.order == id && is_cod p.provider && is_payment_pending p.status

abbrev pub is_pending_of : ℕ → Payment → Bool
is_pending_of id p = p.order == id && is_payment_pending p.status

abbrev pub with_status : OrderStatus → Order → Order
with_status status x = record x { status = status }

-- Whether an update to this status releases the order's holds.
abbrev pub ends_unsold : OrderStatus → Bool
ends_unsold a = same_order_status a OrderStatus.cancelled || same_order_status a OrderStatus.expired

-- The statuses in which a customer may cancel.
abbrev pub is_cancellable : OrderStatus → Bool
is_cancellable a =
    same_order_status a OrderStatus.pending
    || same_order_status a OrderStatus.payment_pending
    || same_order_status a OrderStatus.confirmed

-- `userId && order.userId !== userId`
abbrev pub is_stranger : Option ℕ → Option ℕ → Bool
is_stranger none owner = false
is_stranger (some u) none = true
is_stranger (some u) (some w) = not (w == u)

module _ (o : Orm) where
  -- The payment on delivery of a delivered order, if one is pending, is taken as paid.
  unfoldable pub settle_cod : ℕ → ℕ → ℕ × Payment → Service o (Unit {0})
  settle_cod now id (k, p) = do
    update_payment o k
        (λ x. record x { status = PaymentStatus.success; paid = p.amount; paid_at = some now })
    log_transaction o (record {
      payment = k;
      attempt = none;
      kind = TransactionKind.charge;
      status = TransactionStatus.success;
      amount = p.amount;
    })
    publish o (record { kind = EventKind.order_paid; aggregate = k; order = id; amount = p.amount })
    pure tt

  unfoldable pub resolve_cod : ℕ → ℕ → Service o (Unit {0})
  resolve_cod now id = do
    found ← gets (λ s. find_first o (is_pending_cod id) s.payments)
    elim found [ none ↦ pure tt | some pending ↦ settle_cod now id pending ]

  unfoldable pub end_unsold : ℕ → ℕ → Service o (Unit {0})
  end_unsold now id = do
    release_order_reservations o id
    update_payments o (is_pending_of id)
        (λ p. record p { status = PaymentStatus.failed; failed_at = some now })

  -- The callback of the transaction of `updateOrderStatus`.
  unfoldable pub status_body : ℕ → ℕ → Order → OrderStatus → Option ℕ → Service o (Unit {0})
  status_body now id order next changed_by = do
    update_order o id (with_status next)
    log_history o
        (record { order = id; previous = order.status; next = next; changed_by = changed_by })
    when o (same_order_status next OrderStatus.delivered) (resolve_cod now id)
    when o (ends_unsold next) (end_unsold now id)
    publish o (record {
      kind = EventKind.order_moved next;
      aggregate = id;
      order = id;
      amount = order.grand_total;
    })
    pure tt

  unfoldable pub move_order : ℕ → ℕ → Order → OrderStatus → Option ℕ → Service o (Option Order)
  move_order now id order next changed_by = do
    raise_if (not (is_valid_transition order.status next)) (Error.bad_transition order.status next)
    in_transaction o (status_body now id order next changed_by)
    gets (λ s. o.find Order id s.orders)

  unfoldable pub update_order_status : ℕ → ℕ → OrderStatus → Option ℕ → Service o (Option Order)
  update_order_status now id next changed_by = do
    order ← or_raise (← gets (λ s. o.find Order id s.orders)) Error.order_not_found
    elim (same_order_status order.status next) [
      | true ↦ gets (λ s. o.find Order id s.orders)
      | false ↦ move_order now id order next changed_by
    ]

  unfoldable pub cancel_order : ℕ → ℕ → Option ℕ → Bool → Service o (Option Order)
  cancel_order now id user is_admin = do
    order ← or_raise (← gets (λ s. o.find Order id s.orders)) Error.order_not_found
    raise_if (not is_admin && is_stranger user order.user) Error.not_owner
    raise_if (not is_admin && not (is_cancellable order.status)) (Error.cannot_cancel order.status)
    update_order_status now id OrderStatus.cancelled user
