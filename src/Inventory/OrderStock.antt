-- ===== src/Inventory/OrderStock.antt =====
-- The holds of an order, released when it ends (`releaseOrderReservations` of
-- `orderInventory.service.ts`) or made sales when it is confirmed (`orderFulfillment.service.ts`,
-- `paymentVerification.service.ts`).
use meeo_server.Base.{
  ℕ, ◌≡◌, refl, Option, none, some, Bool, true, false, List, arith, length, keep,
}
use meeo_server.Base.Result.{ok}
use meeo_server.Orm.{Orm}
use meeo_server.Store.{
  Inventory, Reservation, ReservationStatus, is_active, LedgerKind, Reference, State,
}
use meeo_server.Inventory.Holds.{Hold, give_back, commit, mark, close_hold}
use meeo_server.Inventory.OrderHolds.{
  is_held_for, release_one, release_order_reservations, commit_one, commit_order_reservations,
}
use meeo_server.Inventory.Balance.{IsSound, stock_of_hold}
use meeo_server.Inventory.Closing.{
  IsClosing, give_back-IsClosing, commit-IsClosing, closed_state-IsSound, close_hold-eq, entry_of,
}
use meeo_server.Inventory.Sweep.{
  give_back-IsAdditive, commit-IsAdditive, Swept, IsRound, sweep, find_many-Live,
}

is_held_for-active :
    (order : ℕ) (r : Reservation) → is_held_for order r ≡ true → is_active r.status ≡ true
is_held_for-active order r e = ground arith

module _ (o : Orm) where
  abbrev pub weight_of : Hold → ℕ
  weight_of h = h.reservation.quantity

  -- A call that closes a reservation is a round of a sweep.
  pub close_hold-IsRound :
      (move : ℕ → Inventory → Inventory) (status : ReservationStatus) (kind : LedgerKind)
      (reference : ℕ × Reservation → Reference)
      → is_active status ≡ false
      → IsClosing move
      → IsRound o move
          (mark status)
          weight_of
          (λ found. close_hold o move (mark status) kind (reference found) found)
  close_hold-IsRound move status kind reference over closing k r s c here a =
      let (i, stocked) = stock_of_hold o s.inventory s.reservations k c here a in
      let ref = reference (k, r) in
      (
        record {
          key = k;
          reservation = mark status r;
          inventory = move r.quantity i;
          entry = entry_of o kind ref r;
        },
        i,
        entry_of o kind ref r,
        stocked,
        close_hold-eq o move (mark status) kind ref k r i s stocked here,
        closed_state-IsSound o move (mark status) kind ref k r i s c stocked here a closing
            (record { ended = over; units = refl }),
        refl,
      )

  -- No row that the query finds is left in a state that the sweep of its rows leaves, if a row that
  -- the sweep has rewritten fails the query.
  pub none_left :
      (p : Reservation → Bool) (move : ℕ → Inventory → Inventory) (status : ReservationStatus)
      (s s' : State o)
      → ((r : Reservation) → p (mark status r) ≡ false)
      → Swept o move (mark status) (o.find_many Reservation p s.reservations) s s'
      → (j : ℕ) → keep p (o.find Reservation j s'.reservations) ≡ none
  none_left p move status s s' fails after j = go (o.find Reservation j s.reservations) refl
    where
      go :
          (x : Option Reservation)
          → o.find Reservation j s.reservations ≡ x
          → keep p (o.find Reservation j s'.reservations) ≡ none
      go none e =
          ground (arith, after.reservations j, o.find_in-find_many Reservation p j s.reservations)
      go (some r) e =
          ground (
            arith,
            after.reservations j,
            o.find_in-find_many Reservation p j s.reservations,
            fails r,
          )

  module _ (order : ℕ) (s : State o) where
    abbrev pub holds_of : List (ℕ × Reservation)
    holds_of = o.find_many Reservation (is_held_for order) s.reservations

    -- Releasing an order's holds, in a sound state, never throws, and returns their number. It
    -- leaves a sound state in which the order has no active hold, every variant has the units of
    -- the order's holds back in its available count, each such hold is RELEASED, other
    -- reservations are as before, and no table but stock, reservations and ledger is written.
    pub release_order_reservations_lem :
        IsSound o s
        → (s' : State o) × (release_order_reservations o order s ≡ (ok (length holds_of), s'))
          × Swept o give_back (mark ReservationStatus.released) holds_of s s'
          × ((j : ℕ) → keep (is_held_for order) (o.find Reservation j s'.reservations) ≡ none)
    unfolding release_order_reservations release_one
    release_order_reservations_lem c =
        let (hs, s', eq, after, _) =
          sweep o give_back (mark ReservationStatus.released) weight_of (release_one o order)
            give_back-IsAdditive round holds_of s c
            (find_many-Live o (is_held_for order) s.reservations give_back
              (mark ReservationStatus.released) (is_held_for-active order))
            (o.find_many-Distinct Reservation (is_held_for order) s.reservations) in
        (
          s',
          ground arith,
          after,
          none_left (is_held_for order) give_back ReservationStatus.released s s' (λ r. refl) after,
        )
      where
        round :
            IsRound o give_back (mark ReservationStatus.released) weight_of (release_one o order)
        round =
            close_hold-IsRound give_back ReservationStatus.released LedgerKind.order_cancelled
              (λ _. Reference.order order) refl give_back-IsClosing

    -- Confirming an order's holds, in a sound state, never throws. It leaves a sound state in which
    -- the order has no active hold, every variant has the units of the order's holds taken off its
    -- reserved count and its available count as before, each such hold is CONFIRMED, other
    -- reservations are as before, and no table but stock, reservations and ledger is written.
    pub commit_order_reservations_lem :
        IsSound o s
        → (s' : State o) × (commit_order_reservations o order s ≡ (ok tt, s'))
          × Swept o commit (mark ReservationStatus.confirmed) holds_of s s'
          × ((j : ℕ) → keep (is_held_for order) (o.find Reservation j s'.reservations) ≡ none)
    unfolding commit_order_reservations commit_one
    commit_order_reservations_lem c =
        let (hs, s', eq, after, _) =
          sweep o commit (mark ReservationStatus.confirmed) weight_of (commit_one o order)
            commit-IsAdditive round holds_of s c
            (find_many-Live o (is_held_for order) s.reservations commit
              (mark ReservationStatus.confirmed) (is_held_for-active order))
            (o.find_many-Distinct Reservation (is_held_for order) s.reservations) in
        (
          s',
          ground arith,
          after,
          none_left (is_held_for order) commit ReservationStatus.confirmed s s' (λ r. refl) after,
        )
      where
        round : IsRound o commit (mark ReservationStatus.confirmed) weight_of (commit_one o order)
        round =
            close_hold-IsRound commit ReservationStatus.confirmed LedgerKind.order_confirmed
              (λ _. Reference.order order) refl commit-IsClosing
