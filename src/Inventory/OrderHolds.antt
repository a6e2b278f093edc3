-- ===== src/Inventory/OrderHolds.antt =====
-- `src/modules/orders/services/orderInventory.service.ts`, and the loop by which a confirmed order's
-- holds become sales (`orderFulfillment.service.ts`, `paymentVerification.service.ts`). These run
-- inside a transaction of their caller.
use meeo_server.Base.{ℕ, some, none, Bool, false, List, length, ◌==◌, ◌&&◌}
use meeo_server.Base.Int.{pos, ltb_ℤ}
use meeo_server.Base.Result.{◌>>=◌, ◌>>◌, pure, raise_if, or_raise, gets, for_each}
use meeo_server.Orm.{Orm}
use meeo_server.Store.{
  Inventory, Reservation, ReservationStatus, is_active, LedgerKind, Reference, Service, Error,
}
use meeo_server.Inventory.Holds.{give_back, commit, mark, Hold, open_hold, close_hold}

pub record Requirement : Type 0 where
  pub variant : ℕ
  pub quantity : ℕ

-- `where: { orderId, status: "ACTIVE" }`
abbrev pub is_held_for : ℕ → Reservation → Bool
is_held_for order r = is_active r.status && elim r.order [ none ↦ false | some k ↦ k == order ]

module _ (o : Orm) where
  -- A round of the loop of `reserveItemsForOrder`; `expires_at` is the time of the call plus the
  -- minutes given.
  unfoldable pub reserve_item : ℕ → ℕ → Requirement → Service o Hold
  reserve_item expires_at order item = do
    i ← or_raise (← gets (λ s. o.find Inventory item.variant s.inventory)) Error.inventory_not_found
    raise_if (ltb_ℤ i.available (pos item.quantity)) Error.insufficient_stock
    open_hold o item.variant item.quantity (some order) expires_at (λ _. Reference.order order)

  unfoldable pub reserve_items_for_order : ℕ → ℕ → List Requirement → Service o (List Hold)
  reserve_items_for_order expires_at order items = for_each (reserve_item expires_at order) items

  unfoldable pub release_one : ℕ → ℕ × Reservation → Service o Hold
  release_one order found =
      close_hold o give_back (mark ReservationStatus.released) LedgerKind.order_cancelled
        (Reference.order order) found

  unfoldable pub release_order_reservations : ℕ → Service o ℕ
  release_order_reservations order = do
    held ← gets (λ s. o.find_many Reservation (is_held_for order) s.reservations)
    for_each (release_one order) held
    pure (length held)

  unfoldable pub commit_one : ℕ → ℕ × Reservation → Service o Hold
  commit_one order found =
      close_hold o commit (mark ReservationStatus.confirmed) LedgerKind.order_confirmed
        (Reference.order order) found

  unfoldable pub commit_order_reservations : ℕ → Service o (Unit {0})
  commit_order_reservations order = do
    held ← gets (λ s. o.find_many Reservation (is_held_for order) s.reservations)
    for_each (commit_one order) held
    pure tt
