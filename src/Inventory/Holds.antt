-- ===== src/Inventory/Holds.antt =====
-- The writes by which a reservation is opened and closed, which `reservation.service.ts`,
-- `orderInventory.service.ts`, `orderFulfillment.service.ts` and `paymentVerification.service.ts`
-- share: a change of the stock counters, a change of the reservation, and a row of the ledger.
use meeo_server.Base.{ℕ, Option}
use meeo_server.Base.Int.{pos, ◌+ℤ◌, ◌-ℤ◌}
use meeo_server.Base.Result.{◌>>=◌, pure}
use meeo_server.Orm.{Orm}
use meeo_server.Store.{
  Inventory, Reservation, ReservationStatus, LedgerKind, LedgerEntry, Reference, Service,
  update_inventory, update_reservation, create_reservation, log_stock,
}

-- `availableQuantity: { decrement }, reservedQuantity: { increment }`
abbrev pub set_aside : ℕ → Inventory → Inventory
set_aside q i = record i { available = i.available -ℤ pos q; reserved = i.reserved +ℤ pos q }

-- `availableQuantity: { increment }, reservedQuantity: { decrement }`
abbrev pub give_back : ℕ → Inventory → Inventory
give_back q i = record i { available = i.available +ℤ pos q; reserved = i.reserved -ℤ pos q }

-- `reservedQuantity: { decrement }`
abbrev pub commit : ℕ → Inventory → Inventory
commit q i = record i { reserved = i.reserved -ℤ pos q }

abbrev pub mark : ReservationStatus → Reservation → Reservation
mark status r = record r { status = status }

-- What a call on a reservation returns.
pub record Hold : Type 0 where
  pub key : ℕ
  pub reservation : Reservation
  pub inventory : Inventory
  pub entry : LedgerEntry

module _ (o : Orm) where
  -- The stock is shifted, the reservation is created as ACTIVE, and the ledger is written; the
  -- ledger refers to the new reservation or to an order.
  unfoldable pub open_hold : ℕ → ℕ → Option ℕ → ℕ → (ℕ → Reference) → Service o Hold
  open_hold v q order expires_at reference = do
    i ← update_inventory o v (set_aside q)
    created ← create_reservation o (record {
      variant = v;
      order = order;
      quantity = q;
      status = ReservationStatus.active;
      expires_at = expires_at;
    })
    e ← log_stock o (record {
      variant = v;
      kind = LedgerKind.order_reserved;
      quantity = pos q;
      reference = reference (created.0);
    })
    pure (record { key = created.0; reservation = created.1; inventory = i; entry = e })

  -- The stock is moved, the reservation is rewritten, and the ledger is written.
  unfoldable pub close_hold :
      (ℕ → Inventory → Inventory)
      → (Reservation → Reservation)
      → LedgerKind
      → Reference
      → ℕ × Reservation
      → Service o Hold
  close_hold move rewrite kind reference (id, r) = do
    i ← update_inventory o r.variant (move r.quantity)
    r' ← update_reservation o id rewrite
    e ← log_stock o (record {
      variant = r.variant;
      kind = kind;
      quantity = pos r.quantity;
      reference = reference;
    })
    pure (record { key = id; reservation = r'; inventory = i; entry = e })
