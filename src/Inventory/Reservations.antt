-- ===== src/Inventory/Reservations.antt =====
-- `src/modules/inventory/services/reservation.service.ts`. `now` is the time of the call.
use meeo_server.Base.{
  ℕ, ◌+◌, ◌*◌, Option, some, none, Bool, not, ltb, length, sum_by, if◌then◌else◌, ◌&&◌,
}
use meeo_server.Base.Int.{pos, ltb_ℤ}
use meeo_server.Base.Result.{◌>>=◌, ◌>>◌, pure, raise, raise_if, or_raise, gets, for_each}
use meeo_server.Orm.{Orm}
use meeo_server.Store.{
  Inventory, Reservation, ReservationStatus, is_active, LedgerKind, Reference, Service, Error,
  in_transaction,
}
use meeo_server.Inventory.Holds.{give_back, commit, mark, Hold, open_hold, close_hold}

-- `a ?? b`
abbrev pub or_else : Option ℕ → Option ℕ → Option ℕ
or_else none b = b
or_else (some a) b = some a

-- `orderId ?? reservation.orderId ?? reservation.id`, with the type "ORDER".
abbrev pub order_reference : Option ℕ → ℕ → Reference
order_reference none id = Reference.order id
order_reference (some k) id = Reference.order k

abbrev pub is_stale : ℕ → Reservation → Bool
is_stale now r = is_active r.status && ltb r.expires_at now

module _ (o : Orm) where
  -- The callback of the transaction of `reserveStock`.
  unfoldable pub reserve_body : ℕ → ℕ → ℕ → Option ℕ → ℕ → Service o Hold
  reserve_body now v q order minutes = do
    i ← or_raise (← gets (λ s. o.find Inventory v s.inventory)) Error.inventory_not_found
    raise_if (ltb_ℤ i.available (pos q)) Error.insufficient_stock
    open_hold o v q order (now + minutes * 60_000) Reference.reservation

  unfoldable pub reserve_stock : ℕ → ℕ → ℕ → Option ℕ → ℕ → Service o Hold
  reserve_stock now v q order minutes = in_transaction o (reserve_body now v q order minutes)

  -- What `confirmReservation` does with a reservation that it found.
  unfoldable pub confirm_found : ℕ → Option ℕ → ℕ × Reservation → Service o Hold
  confirm_found now order (id, r) =
      let expire = (do
        close_hold o give_back (mark ReservationStatus.expired) LedgerKind.order_cancelled
            (Reference.reservation id) (id, r)
        raise Error.reservation_expired) in
      let confirm =
        close_hold o commit
          (λ x. record x { status = ReservationStatus.confirmed; order = or_else order r.order })
          LedgerKind.order_confirmed (order_reference (or_else order r.order) id) (id, r) in
      if ltb r.expires_at now then expire else confirm

  unfoldable pub confirm_body : ℕ → ℕ → Option ℕ → Service o Hold
  confirm_body now id order = do
    r ← or_raise (← gets (λ s. o.find Reservation id s.reservations)) Error.reservation_not_found
    raise_if (not (is_active r.status)) (Error.reservation_not_active r.status)
    confirm_found now order (id, r)

  unfoldable pub confirm_reservation : ℕ → ℕ → Option ℕ → Service o Hold
  confirm_reservation now id order = in_transaction o (confirm_body now id order)

  unfoldable pub release_body : ℕ → Service o Hold
  release_body id = do
    r ← or_raise (← gets (λ s. o.find Reservation id s.reservations)) Error.reservation_not_found
    raise_if (not (is_active r.status)) (Error.reservation_not_active r.status)
    close_hold o give_back (mark ReservationStatus.released) LedgerKind.order_cancelled
        (Reference.reservation id) (id, r)

  unfoldable pub release_reservation : ℕ → Service o Hold
  release_reservation id = in_transaction o (release_body id)

  -- The callback of the transaction of `expireStaleReservations`.
  unfoldable pub expire_body : ℕ × Reservation → Service o Hold
  expire_body (id, r) =
      close_hold o give_back (mark ReservationStatus.expired) LedgerKind.order_cancelled
        (Reference.reservation id) (id, r)

  -- A round of the loop of `expireStaleReservations`: a transaction, and the units restored.
  unfoldable pub expire_one : ℕ × Reservation → Service o ℕ
  expire_one (id, r) = do in_transaction o (expire_body (id, r)); pure r.quantity

  -- The number of reservations expired, and the units restored.
  unfoldable pub expire_stale_reservations : ℕ → Service o (ℕ × ℕ)
  expire_stale_reservations now = do
    stale ← gets (λ s. o.find_many Reservation (is_stale now) s.reservations)
    units ← for_each expire_one stale
    pure (length stale, sum_by (λ q. q) units)
