-- ===== src/Inventory/Branches.antt =====
-- The branches of `reserveStock`, `confirmReservation` and `releaseReservation`
-- (`reservation.service.ts`), inside their transactions.
use meeo_server.Base.{ℕ, ◌+◌, ◌*◌, ◌≡◌, Option, none, some, true, false, arith, ltb}
use meeo_server.Base.Int.{pos, ltb_ℤ}
use meeo_server.Base.Result.{err, raise, ◌>>◌}
use meeo_server.Orm.{Orm}
use meeo_server.Store.{
  Inventory, Reservation, ReservationStatus, is_active, LedgerKind, Reference, State, Error,
}
use meeo_server.Inventory.Holds.{give_back, commit, mark, open_hold, close_hold}
use meeo_server.Inventory.Reservations.{
  or_else, order_reference, reserve_body, confirm_found, confirm_body, release_body, expire_body,
}

module _ (o : Orm) (id : ℕ) (s : State o) where
  pub release_missing :
      o.find Reservation id s.reservations ≡ none
      → release_body o id s ≡ (err Error.reservation_not_found, s)
  unfolding release_body
  release_missing e = ground arith

  pub release_inactive :
      (r : Reservation)
      → o.find Reservation id s.reservations ≡ some r
      → is_active r.status ≡ false
      → release_body o id s ≡ (err (Error.reservation_not_active r.status), s)
  unfolding release_body
  release_inactive r e a = ground arith

  pub release_active :
      (r : Reservation)
      → o.find Reservation id s.reservations ≡ some r
      → is_active r.status ≡ true
      → release_body o id s
        ≡ close_hold o give_back
            (mark ReservationStatus.released)
            LedgerKind.order_cancelled
            (Reference.reservation id)
            (id, r)
            s
  unfolding release_body
  release_active r e a = ground arith

  module _ (now : ℕ) (order : Option ℕ) where
    pub confirm_missing :
        o.find Reservation id s.reservations ≡ none
        → confirm_body o now id order s ≡ (err Error.reservation_not_found, s)
    unfolding confirm_body
    confirm_missing e = ground arith

    pub confirm_inactive :
        (r : Reservation)
        → o.find Reservation id s.reservations ≡ some r
        → is_active r.status ≡ false
        → confirm_body o now id order s ≡ (err (Error.reservation_not_active r.status), s)
    unfolding confirm_body
    confirm_inactive r e a = ground arith

    pub confirm_late :
        (r : Reservation)
        → o.find Reservation id s.reservations ≡ some r
        → is_active r.status ≡ true
        → ltb r.expires_at now ≡ true
        → confirm_body o now id order s
          ≡ (expire_body o (id, r) >> raise Error.reservation_expired) s
    unfolding confirm_body confirm_found expire_body
    confirm_late r e a late = ground arith

    pub confirm_timely :
        (r : Reservation)
        → o.find Reservation id s.reservations ≡ some r
        → is_active r.status ≡ true
        → ltb r.expires_at now ≡ false
        → confirm_body o now id order s
          ≡ close_hold o commit
              (λ x. record x {
                status = ReservationStatus.confirmed;
                order = or_else order r.order;
              })
              LedgerKind.order_confirmed
              (order_reference (or_else order r.order) id)
              (id, r)
              s
    unfolding confirm_body confirm_found
    confirm_timely r e a late = ground arith

module _ (o : Orm) (now v q : ℕ) (order : Option ℕ) (minutes : ℕ) (s : State o) where
  pub reserve_missing :
      o.find Inventory v s.inventory ≡ none
      → reserve_body o now v q order minutes s ≡ (err Error.inventory_not_found, s)
  unfolding reserve_body
  reserve_missing e = ground arith

  pub reserve_short :
      (i : Inventory)
      → o.find Inventory v s.inventory ≡ some i
      → ltb_ℤ i.available (pos q) ≡ true
      → reserve_body o now v q order minutes s ≡ (err Error.insufficient_stock, s)
  unfolding reserve_body
  reserve_short i e a = ground arith

  pub reserve_covered :
      (i : Inventory)
      → o.find Inventory v s.inventory ≡ some i
      → ltb_ℤ i.available (pos q) ≡ false
      → reserve_body o now v q order minutes s
        ≡ open_hold o v q order (now + minutes * 60_000) Reference.reservation s
  unfolding reserve_body
  reserve_covered i e a = ground arith
