-- ===== src/Inventory/Soundness.antt =====
-- Every operation of `reservation.service.ts`, `stock.service.ts` and `orderInventory.service.ts`
-- keeps the stock counters and the reservations in agreement.
use meeo_server.Base.{
  ℕ, ◌+◌, ◌*◌, ◌<◌, ◌≡◌, refl, inl, inr, Option, some, true, arith, Option-cases, Bool-cases, ltb,
}
use meeo_server.Base.Int.{pos, ltb_ℤ}
use meeo_server.Base.Result.{Result, ok, err, settle, raise, ◌>>◌}
use meeo_server.Orm.{Orm}
use meeo_server.Store.{
  Inventory, Reservation, ReservationStatus, is_active, LedgerKind, Reference, State, Service,
  Error, in_transaction,
}
use meeo_server.Inventory.Holds.{Hold, give_back, commit, mark, close_hold}
use meeo_server.Inventory.Reservations.{
  or_else, order_reference, reserve_body, reserve_stock, confirm_body, confirm_reservation,
  release_body, release_reservation, expire_body,
}
use meeo_server.Inventory.Branches.{
  release_missing, release_inactive, release_active, confirm_missing, confirm_inactive,
  confirm_late, confirm_timely, reserve_missing, reserve_short, reserve_covered,
}
use meeo_server.Inventory.Balance.{IsSound, stock_of_hold}
use meeo_server.Inventory.Closing.{
  IsClosing, IsEnding, give_back-IsClosing, commit-IsClosing, closed_state-IsSound, close_hold-eq,
  open_hold-eq, opened_state-IsSound,
}

module _ (o : Orm) where
  -- A transaction leaves a sound state if its body does.
  pub in_transaction-IsSound :
      {A : Type 0} (m : Service o A) (s : State o)
      → IsSound o s
      → IsSound o (m s).1
      → IsSound o (in_transaction o m s).1
  in_transaction-IsSound {A} m s before after =
      go (m s) after (o.transaction-settle (State o) Error A m s)
    where
      go :
          (r : Result Error A × State o)
          → IsSound o r.1
          → in_transaction o m s ≡ settle s r
          → IsSound o (in_transaction o m s).1
      go (ok a, s') h e = rw e h
      go (err x, s') h e = rw e before

  pub close_hold-IsSound :
      (move : ℕ → Inventory → Inventory) (rewrite : Reservation → Reservation) (kind : LedgerKind)
      (reference : Reference) (k : ℕ) (r : Reservation) (s : State o)
      → IsSound o s
      → o.find Reservation k s.reservations ≡ some r
      → is_active r.status ≡ true
      → IsClosing move
      → IsEnding rewrite r
      → IsSound o (close_hold o move rewrite kind reference (k, r) s).1
  close_hold-IsSound move rewrite kind reference k r s c here a closing ending =
      let (i, stocked) = stock_of_hold o s.inventory s.reservations k c here a in
      rw (close_hold-eq o move rewrite kind reference k r i s stocked here)
        (closed_state-IsSound o move rewrite kind reference k r i s c stocked here a closing ending)

  -- Reserving stock keeps a sound state sound, whether it succeeds or throws.
  pub reserve_stock-IsSound :
      (now v q : ℕ) (order : Option ℕ) (minutes : ℕ) (s : State o)
      → IsSound o s
      → 0 < q
      → IsSound o (reserve_stock o now v q order minutes s).1
  unfolding reserve_stock
  reserve_stock-IsSound now v q order minutes s c positive =
      in_transaction-IsSound (reserve_body o now v q order minutes) s c body
    where
      body : IsSound o (reserve_body o now v q order minutes s).1
      body = elim (Option-cases (o.find Inventory v s.inventory)) [
        | inl e ↦ rw (reserve_missing o now v q order minutes s e) c
        | inr (i, e) ↦ elim (Bool-cases (ltb_ℤ i.available (pos q))) [
          | inl short ↦ rw (reserve_short o now v q order minutes s i e short) c
          | inr enough ↦
              rw
                (
                  reserve_covered o now v q order minutes s i e enough,
                  open_hold-eq o v q order (now + minutes * 60_000) Reference.reservation i s e,
                )
                (opened_state-IsSound o v q order (now + minutes * 60_000) Reference.reservation i s
                  c e positive (ground arith))
        ]
      ]

  -- Releasing a reservation keeps a sound state sound, whether it succeeds or throws.
  pub release_reservation-IsSound :
      (id : ℕ) (s : State o) → IsSound o s → IsSound o (release_reservation o id s).1
  unfolding release_reservation
  release_reservation-IsSound id s c = in_transaction-IsSound (release_body o id) s c body
    where
      body : IsSound o (release_body o id s).1
      body = elim (Option-cases (o.find Reservation id s.reservations)) [
        | inl e ↦ rw (release_missing o id s e) c
        | inr (r, e) ↦ elim (Bool-cases (is_active r.status)) [
          | inl a ↦ rw (release_active o id s r e a) (
              close_hold-IsSound give_back (mark ReservationStatus.released)
                LedgerKind.order_cancelled (Reference.reservation id) id r s c e a
                give_back-IsClosing (record { ended = refl; units = refl }))
          | inr a ↦ rw (release_inactive o id s r e a) c
        ]
      ]

  pub expire_body-IsSound :
      (id : ℕ) (r : Reservation) (s : State o)
      → IsSound o s
      → o.find Reservation id s.reservations ≡ some r
      → is_active r.status ≡ true
      → IsSound o (expire_body o (id, r) s).1
  unfolding expire_body
  expire_body-IsSound id r s c e a =
      close_hold-IsSound give_back (mark ReservationStatus.expired) LedgerKind.order_cancelled
        (Reference.reservation id) id r s c e a give_back-IsClosing
        (record { ended = refl; units = refl })

  -- Confirming a reservation keeps a sound state sound, whether it succeeds or throws.
  pub confirm_reservation-IsSound :
      (now id : ℕ) (order : Option ℕ) (s : State o)
      → IsSound o s
      → IsSound o (confirm_reservation o now id order s).1
  unfolding confirm_reservation
  confirm_reservation-IsSound now id order s c =
      in_transaction-IsSound (confirm_body o now id order) s c body
    where
      late :
          (r : Reservation)
          → o.find Reservation id s.reservations ≡ some r
          → is_active r.status ≡ true
          → IsSound o ((expire_body o (id, r) >> raise {A = Hold} Error.reservation_expired) s).1
      late r e a = ground (arith, expire_body-IsSound id r s c e a)

      body : IsSound o (confirm_body o now id order s).1
      body = elim (Option-cases (o.find Reservation id s.reservations)) [
        | inl e ↦ rw (confirm_missing o id s now order e) c
        | inr (r, e) ↦ elim (Bool-cases (is_active r.status)) [
          | inr a ↦ rw (confirm_inactive o id s now order r e a) c
          | inl a ↦ elim (Bool-cases (ltb r.expires_at now)) [
            | inl t ↦ rw (confirm_late o id s now order r e a t) (late r e a)
            | inr t ↦ rw (confirm_timely o id s now order r e a t) (
                close_hold-IsSound commit
                  (λ x. record x {
                    status = ReservationStatus.confirmed;
                    order = or_else order r.order;
                  })
                  LedgerKind.order_confirmed (order_reference (or_else order r.order) id) id r s c e
                  a commit-IsClosing (record { ended = refl; units = refl }))
          ]
        ]
      ]
