-- ===== src/Orders/Fulfillment.antt =====
-- `src/modules/orders/services/orderFulfillment.service.ts`. The carrier's details, which only the
-- reason text and the response hold, are left out.
use meeo_server.Base.{
  ℕ, ◌+◌, ◌*◌, Option, Bool, not, ◌&&◌, ◌||◌, List, [], ◌∷◌, leb, length, if◌then◌else◌,
}
use meeo_server.Base.Result.{◌>>=◌, ◌>>◌, pure, raise_if, or_raise, gets, for_each}
use meeo_server.Orm.{Orm}
use meeo_server.Store.{
  OrderStatus, same_order_status, Order, Service, Error, attempt, in_transaction,
}
use meeo_server.Inventory.OrderHolds.{commit_order_reservations}
use meeo_server.Orders.Status.{update_order_status}

-- PENDING or PAYMENT_PENDING
abbrev pub is_unconfirmed : OrderStatus → Bool
is_unconfirmed a =
    same_order_status a OrderStatus.pending || same_order_status a OrderStatus.payment_pending

-- `status: { in: [...] }, createdAt: { lte: cutoffDate }`
abbrev pub is_overdue : ℕ → ℕ → Order → Bool
is_overdue now minutes x = is_unconfirmed x.status && leb (x.created_at + minutes * 60_000) now

abbrev pub count_true : List Bool → ℕ
count_true [] = 0
count_true (b ∷ l) = (if b then 1 else 0) + count_true l

module _ (o : Orm) where
  unfoldable pub confirm_order : ℕ → ℕ → Option ℕ → Service o (Option Order)
  confirm_order now id changed_by = do
    order ← or_raise (← gets (λ s. o.find Order id s.orders)) Error.order_not_found
    raise_if (not (is_unconfirmed order.status)) (Error.cannot_confirm order.status)
    in_transaction o (commit_order_reservations o id)
    update_order_status o now id OrderStatus.confirmed changed_by

  unfoldable pub process_order : ℕ → ℕ → Option ℕ → Service o (Option Order)
  process_order now id changed_by = update_order_status o now id OrderStatus.processing changed_by

  unfoldable pub ship_order : ℕ → ℕ → Option ℕ → Service o (Option Order)
  ship_order now id changed_by = update_order_status o now id OrderStatus.shipped changed_by

  unfoldable pub deliver_order : ℕ → ℕ → Option ℕ → Service o (Option Order)
  deliver_order now id changed_by = update_order_status o now id OrderStatus.delivered changed_by

  -- A round of the loop of `expireStaleOrders`; `changed_by` is the name of the sweeper.
  unfoldable pub expire_order : ℕ → Option ℕ → ℕ × Order → Service o Bool
  expire_order now changed_by (id, x) =
      attempt o (update_order_status o now id OrderStatus.expired changed_by)

  -- The number of orders found, and the number of those expired.
  unfoldable pub expire_stale_orders : ℕ → ℕ → Option ℕ → Service o (ℕ × ℕ)
  expire_stale_orders now minutes changed_by = do
    stale ← gets (λ s. o.find_many Order (is_overdue now minutes) s.orders)
    done ← for_each (expire_order now changed_by) stale
    pure (length stale, count_true done)
