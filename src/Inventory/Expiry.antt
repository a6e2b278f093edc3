-- ===== src/Inventory/Expiry.antt =====
-- `expireStaleReservations` and the expiry branch of `confirmReservation` (`reservation.service.ts`).
use meeo_server.Base.{ℕ, ◌≡◌, refl, Option, none, some, true, List, arith, length, keep, ltb}
use meeo_server.Base.Result.{ok, err}
use meeo_server.Orm.{Orm}
use meeo_server.Store.{
  Reservation, ReservationStatus, is_active, LedgerKind, Reference, State, Error,
}
use meeo_server.Inventory.Holds.{Hold, give_back, mark}
use meeo_server.Inventory.Reservations.{
  is_stale, expire_body, expire_one, expire_stale_reservations, confirm_body, confirm_reservation,
}
use meeo_server.Inventory.Branches.{confirm_late}
use meeo_server.Inventory.Balance.{IsSound}
use meeo_server.Inventory.Closing.{give_back-IsClosing}
use meeo_server.Inventory.Sweep.{
  all_units, give_back-IsAdditive, Swept, IsRound, sweep, find_many-Live,
}
use meeo_server.Inventory.OrderStock.{weight_of, close_hold-IsRound, none_left}

is_stale-active : (now : ℕ) (r : Reservation) → is_stale now r ≡ true → is_active r.status ≡ true
is_stale-active now r e = ground arith

module _ (o : Orm) where
  abbrev expire_mark : Reservation → Reservation
  expire_mark = mark ReservationStatus.expired

  expire_body-IsRound : IsRound o give_back expire_mark (weight_of o) (expire_body o)
  unfolding expire_body
  expire_body-IsRound k r =
      close_hold-IsRound o give_back ReservationStatus.expired LedgerKind.order_cancelled
        (λ found. Reference.reservation found.0) refl give_back-IsClosing k r

  expire_one-IsRound : IsRound o give_back expire_mark (λ q. q) (expire_one o)
  unfolding expire_one
  expire_one-IsRound k r s c here a =
      let (h, i, e, stocked, eq, sound, _) = expire_body-IsRound k r s c here a in
      (
        r.quantity,
        i,
        e,
        stocked,
        ground (arith, o.transaction-settle (State o) Error Hold (expire_body o (k, r)) s),
        sound,
        refl,
      )

  module _ (now : ℕ) (s : State o) where
    abbrev pub stale_of : List (ℕ × Reservation)
    stale_of = o.find_many Reservation (is_stale now) s.reservations

    -- In a sound state the sweep never throws. It returns how many reservations were active and past
    -- their time, and the sum of their units; it leaves a sound state with no such reservation, in
    -- which their units are available again, each of them is EXPIRED, other reservations are as
    -- before, and no table but stock, reservations and ledger is written.
    pub expire_stale_reservations_lem :
        IsSound o s
        → (s' : State o) × (expire_stale_reservations o now s
            ≡ (ok (length stale_of, all_units stale_of), s'))
          × Swept o give_back (mark ReservationStatus.expired) stale_of s s'
          × ((j : ℕ) → keep (is_stale now) (o.find Reservation j s'.reservations) ≡ none)
    unfolding expire_stale_reservations
    expire_stale_reservations_lem c =
        let (qs, s', eq, after, sum) =
          sweep o give_back expire_mark (λ q. q) (expire_one o) give_back-IsAdditive
            expire_one-IsRound stale_of s c
            (find_many-Live o (is_stale now) s.reservations give_back expire_mark
              (is_stale-active now))
            (o.find_many-Distinct Reservation (is_stale now) s.reservations) in
        (
          s',
          ground arith,
          after,
          none_left o (is_stale now) give_back ReservationStatus.expired s s' (λ r. refl) after,
        )

    -- In a sound state, confirming an active reservation that is past its time throws the error that
    -- says the stock has been restored, and leaves every table as it was: the exception rolls the
    -- restoring writes back, so the reservation is still active and its units are still reserved.
    pub confirm_reservation_expired :
        (id : ℕ) (order : Option ℕ) (r : Reservation)
        → IsSound o s
        → o.find Reservation id s.reservations ≡ some r
        → is_active r.status ≡ true
        → ltb r.expires_at now ≡ true
        → confirm_reservation o now id order s ≡ (err Error.reservation_expired, s)
    unfolding confirm_reservation
    confirm_reservation_expired id order r c here a late =
        let (h, i, e, stocked, eq, sound, _) = expire_body-IsRound id r s c here a in
        ground (
          arith,
          o.transaction-settle (State o) Error Hold (confirm_body o now id order) s,
          confirm_late o id s now order r here a late,
        )
