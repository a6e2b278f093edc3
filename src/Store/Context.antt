-- ===== src/Store/Context.antt =====
-- The errors that the services throw, the state that a request works on, and the ORM's `update` and
-- `create` as calls on that state.
use meeo_server.Base.{ℕ, Option, none, some, Bool, true, false, List, [], ◌∷◌}
use meeo_server.Base.Result.{ok, err, Action}
use meeo_server.Orm.{Orm}
use meeo_server.Store.Stock.{Inventory, ReservationStatus, Reservation, LedgerEntry}
use meeo_server.Store.Sales.{
  OrderStatus, Order, HistoryEntry, PaymentStatus, Payment, Attempt, TransactionEntry, RefundEntry,
  OutboxEntry,
}

-- What an `AppError` says. `missing_row` is the ORM's own error for an update of a row that is not
-- there.
pub data Error : Type 0 where
  missing_row : Error
  variant_not_found inventory_not_found insufficient_stock : Error
  reservation_not_found reservation_expired : Error
  reservation_not_active : ReservationStatus → Error
  order_not_found not_owner : Error
  bad_transition : OrderStatus → OrderStatus → Error
  cannot_cancel cannot_confirm : OrderStatus → Error
  bad_signature payment_not_found payment_id_required : Error
  not_refundable : PaymentStatus → Error
  fully_refunded refund_not_positive refund_exceeds_balance : Error

-- The HTTP status that an error is thrown with.
pub status_code : Error → ℕ
status_code Error.missing_row = 500
status_code Error.variant_not_found = 404
status_code Error.inventory_not_found = 404
status_code Error.reservation_not_found = 404
status_code Error.order_not_found = 404
status_code Error.payment_not_found = 404
status_code Error.not_owner = 403
status_code _ = 400

-- The tables that are read, and the rows that were created in the tables that are only written,
-- newest first.
pub record State (o : Orm) : Type 0 where
  pub variants : o.Table (Unit {0})
  pub inventory : o.Table Inventory
  pub reservations : o.Table Reservation
  pub orders : o.Table Order
  pub payments : o.Table Payment
  pub attempts : o.Table Attempt
  pub carts : o.Table (Unit {0})
  pub ledger : List LedgerEntry
  pub history : List HistoryEntry
  pub transactions : List TransactionEntry
  pub refunds : List RefundEntry
  pub outbox : List OutboxEntry

abbrev pub Service : Orm → Type 0 → Type 0
Service o A = Action (State o) Error A

module _ (o : Orm) where
  abbrev pub update_inventory : ℕ → (Inventory → Inventory) → Service o Inventory
  update_inventory k f s = elim (o.find Inventory k s.inventory) [
    | none ↦ (err Error.missing_row, s)
    | some r ↦ (ok (f r), record s { inventory = o.write Inventory k (f r) s.inventory })
  ]

  abbrev pub update_reservation : ℕ → (Reservation → Reservation) → Service o Reservation
  update_reservation k f s = elim (o.find Reservation k s.reservations) [
    | none ↦ (err Error.missing_row, s)
    | some r ↦ (ok (f r), record s { reservations = o.write Reservation k (f r) s.reservations })
  ]

  abbrev pub update_order : ℕ → (Order → Order) → Service o Order
  update_order k f s = elim (o.find Order k s.orders) [
    | none ↦ (err Error.missing_row, s)
    | some r ↦ (ok (f r), record s { orders = o.write Order k (f r) s.orders })
  ]

  abbrev pub update_payment : ℕ → (Payment → Payment) → Service o Payment
  update_payment k f s = elim (o.find Payment k s.payments) [
    | none ↦ (err Error.missing_row, s)
    | some r ↦ (ok (f r), record s { payments = o.write Payment k (f r) s.payments })
  ]

  abbrev pub update_attempt : ℕ → (Attempt → Attempt) → Service o Attempt
  update_attempt k f s = elim (o.find Attempt k s.attempts) [
    | none ↦ (err Error.missing_row, s)
    | some r ↦ (ok (f r), record s { attempts = o.write Attempt k (f r) s.attempts })
  ]

  abbrev pub create_reservation : Reservation → Service o (ℕ × Reservation)
  create_reservation r s =
      let k = o.fresh Reservation s.reservations in
      (ok (k, r), record s { reservations = o.write Reservation k r s.reservations })

  abbrev pub log_stock : LedgerEntry → Service o LedgerEntry
  log_stock e s = (ok e, record s { ledger = e ∷ s.ledger })

  abbrev pub log_history : HistoryEntry → Service o HistoryEntry
  log_history e s = (ok e, record s { history = e ∷ s.history })

  abbrev pub log_transaction : TransactionEntry → Service o TransactionEntry
  log_transaction e s = (ok e, record s { transactions = e ∷ s.transactions })

  abbrev pub log_refund : RefundEntry → Service o RefundEntry
  log_refund e s = (ok e, record s { refunds = e ∷ s.refunds })

  abbrev pub publish : OutboxEntry → Service o OutboxEntry
  publish e s = (ok e, record s { outbox = e ∷ s.outbox })

  abbrev pub in_transaction : {A : Type 0} → Service o A → Service o A
  in_transaction {A} m = o.transaction (State o) Error A m

  -- `findFirst`: the first row that `findMany` would return.
  abbrev pub find_first : {R : Type 0} → (R → Bool) → o.Table R → Option (ℕ × R)
  find_first {R} p t = elim (o.find_many R p t) [ [] ↦ none | found ∷ _ ↦ some found ]

  -- `updateMany`: the rows that a query found, each written anew.
  unfoldable pub rewrite_all : {R : Type 0} → (R → R) → List (ℕ × R) → o.Table R → o.Table R
  rewrite_all f [] t = t
  rewrite_all {R} f ((k, r) ∷ l) t = rewrite_all f l (o.write R k (f r) t)

  unfoldable pub update_payments : (Payment → Bool) → (Payment → Payment) → Service o (Unit {0})
  update_payments p f s =
      (ok tt, record s { payments = rewrite_all f (o.find_many Payment p s.payments) s.payments })

  -- `if (test) { … }`
  abbrev pub when : Bool → Service o (Unit {0}) → Service o (Unit {0})
  when true m s = m s
  when false m s = (ok tt, s)

  -- `try { … } catch { }`: whether the call returned.
  abbrev pub attempt : {A : Type 0} → Service o A → Service o Bool
  attempt m s = let (r, s') = m s in elim r [ ok _ ↦ (ok true, s') | err _ ↦ (ok false, s') ]
