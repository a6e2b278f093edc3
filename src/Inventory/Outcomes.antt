-- ===== src/Inventory/Outcomes.antt =====
-- What reserving, releasing and confirming return, and what they leave (`reservation.service.ts`),
-- and adding and removing stock (`stock.service.ts`).
use meeo_server.Base.{
  ℕ, ◌+◌, ◌*◌, ◌≡◌, refl, ◌⊎◌, inl, inr, Option, none, some, false, ◌∷◌, arith, Option-cases,
  Bool-cases,
}
use meeo_server.Base.Int.{pos, ◌+ℤ◌, ◌-ℤ◌, ◌≤ℤ◌, ltb_ℤ, int_laws, +ℤ_parts}
use meeo_server.Base.Result.{ok, err, settle}
use meeo_server.Orm.{Orm}
use meeo_server.Store.{
  Inventory, Reservation, ReservationStatus, is_active, LedgerKind, LedgerEntry, Reference, State,
  Error,
}
use meeo_server.Inventory.Holds.{Hold, set_aside, give_back, mark}
use meeo_server.Inventory.Reservations.{
  reserve_body, reserve_stock, release_body, release_reservation, confirm_body, confirm_reservation,
}
use meeo_server.Inventory.Levels.{reference_or, add_body, add_stock, remove_body, remove_stock}
use meeo_server.Inventory.Branches.{
  release_active, release_inactive, confirm_inactive, reserve_missing, reserve_short,
  reserve_covered,
}
use meeo_server.Inventory.Closing.{
  opened_by, opened_state, open_hold-eq, closed_state, close_hold-eq, entry_of,
}
use meeo_server.Inventory.LevelStates.{added, stocked_state, level_entry, add_known, remove_covered}

-- Taking units and giving them back changes nothing.
give_back-set_aside : (q : ℕ) (i : Inventory) → give_back q (set_aside q i) ≡ i
give_back-set_aside q i = ground (arith, minus_plus, plus_minus)
  where
    minus_plus : i.available -ℤ pos q +ℤ pos q ≡ i.available
    minus_plus = omega int_laws

    plus_minus : i.reserved +ℤ pos q -ℤ pos q ≡ i.reserved
    plus_minus = omega int_laws

module _ (o : Orm) where
  module _ (now v q : ℕ) (order : Option ℕ) (minutes : ℕ) (s : State o) where
    reserved :
        (i : Inventory)
        → o.find Inventory v s.inventory ≡ some i
        → ltb_ℤ i.available (pos q) ≡ false
        → reserve_stock o now v q order minutes s ≡ (
          ok (record {
            key = o.fresh Reservation s.reservations;
            reservation = opened_by o v q order (now + minutes * 60_000);
            inventory = set_aside q i;
            entry = record {
              variant = v;
              kind = LedgerKind.order_reserved;
              quantity = pos q;
              reference = Reference.reservation (o.fresh Reservation s.reservations);
            };
          }),
          opened_state o v q order (now + minutes * 60_000) Reference.reservation i s,
        )
    unfolding reserve_stock
    reserved i e enough = ground (
      arith,
      o.transaction-settle (State o) Error Hold (reserve_body o now v q order minutes) s,
      reserve_covered o now v q order minutes s i e enough,
      open_hold-eq o v q order (now + minutes * 60_000) Reference.reservation i s e,
    )

    -- Reserving stock does one of three things. Without a stock row it throws `inventory_not_found`,
    -- and with fewer than `q` units available `insufficient_stock`; both leave the state as it was.
    -- Otherwise it succeeds: `q` units move from the available to the reserved count, a new ACTIVE
    -- reservation of `q` units that ends `minutes` later is created, and the ledger records it.
    pub reserve_stock_outcome :
        ((o.find Inventory v s.inventory ≡ none)
          × (reserve_stock o now v q order minutes s ≡ (err Error.inventory_not_found, s)))
        ⊎ (((i : Inventory) × (o.find Inventory v s.inventory ≡ some i)
              × (i.available +ℤ pos 1 ≤ℤ pos q)
              × (reserve_stock o now v q order minutes s ≡ (err Error.insufficient_stock, s)))
            ⊎ ((i : Inventory) × (o.find Inventory v s.inventory ≡ some i)
                × (pos q ≤ℤ i.available)
                × (let k = o.fresh Reservation s.reservations in
                    let r : Reservation = record {
                      variant = v;
                      order = order;
                      quantity = q;
                      status = ReservationStatus.active;
                      expires_at = now + minutes * 60_000;
                    } in
                    let i' : Inventory = record i {
                      available = i.available -ℤ pos q;
                      reserved = i.reserved +ℤ pos q;
                    } in
                    let e : LedgerEntry = record {
                      variant = v;
                      kind = LedgerKind.order_reserved;
                      quantity = pos q;
                      reference = Reference.reservation k;
                    } in
                    reserve_stock o now v q order minutes s ≡ (
                      ok (record { key = k; reservation = r; inventory = i'; entry = e }),
                      record s {
                        inventory = o.write Inventory v i' s.inventory;
                        reservations = o.write Reservation k r s.reservations;
                        ledger = e ∷ s.ledger;
                      },
                    ))))
    unfolding reserve_stock
    reserve_stock_outcome = elim (Option-cases (o.find Inventory v s.inventory)) [
      | inl e ↦ inl (e, ground (arith, law, reserve_missing o now v q order minutes s e))
      | inr (i, e) ↦ elim (Bool-cases (ltb_ℤ i.available (pos q))) [
        | inl short ↦ inr (
            inl (
              i,
              e,
              ground (arith, +ℤ_parts i.available (pos 1)),
              ground (arith, law, reserve_short o now v q order minutes s i e short),
            ))
        | inr enough ↦ inr (inr (i, e, ground arith, reserved i e enough))
      ]
    ]
      where
        law :
            reserve_stock o now v q order minutes s
            ≡ settle s (reserve_body o now v q order minutes s)
        law = o.transaction-settle (State o) Error Hold (reserve_body o now v q order minutes) s

    -- A successful reservation can be released at once: the release succeeds, the stock row of the
    -- variant is again what it was before the reservation, every other stock row is untouched, and
    -- the reservation is RELEASED.
    pub release-reserve :
        (i : Inventory)
        → o.find Inventory v s.inventory ≡ some i
        → pos q ≤ℤ i.available
        → let s1 = (reserve_stock o now v q order minutes s).1 in
          let k = o.fresh Reservation s.reservations in
          (h : Hold) × (s2 : State o) × (release_reservation o k s1 ≡ (ok h, s2))
          × ((w : ℕ) → o.find Inventory w s2.inventory ≡ o.find Inventory w s.inventory)
          × (o.find Reservation k s2.reservations
              ≡ some (
                  mark ReservationStatus.released (opened_by o v q order (now + minutes * 60_000))))
    unfolding release_reservation
    release-reserve i e enough =
        let k = o.fresh Reservation s.reservations in
        let r = opened_by o v q order (now + minutes * 60_000) in
        let s1 = opened_state o v q order (now + minutes * 60_000) Reference.reservation i s in
        let here : o.find Reservation k s1.reservations ≡ some r =
          ground (arith, o.find-write Reservation k k r s.reservations) in
        let stocked : o.find Inventory v s1.inventory ≡ some (set_aside q i) =
          ground (arith, o.find-write Inventory v v (set_aside q i) s.inventory) in
        let entry = entry_of o LedgerKind.order_cancelled (Reference.reservation k) r in
        let s2 =
          closed_state o give_back (mark ReservationStatus.released) entry (k, r) (set_aside q i)
            s1 in
        (
          record {
            key = k;
            reservation = mark ReservationStatus.released r;
            inventory = give_back q (set_aside q i);
            entry = entry;
          },
          s2,
          ground (
            arith,
            reserved i e (ground arith),
            o.transaction-settle (State o) Error Hold (release_body o k) s1,
            release_active o k s1 r here refl,
            close_hold-eq o give_back (mark ReservationStatus.released) LedgerKind.order_cancelled
                (Reference.reservation k) k r (set_aside q i) s1 stocked here,
          ),
          λ w. ground (
            arith,
            o.find-write Inventory w v (give_back q (set_aside q i)) s1.inventory,
            o.find-write Inventory w v (set_aside q i) s.inventory,
            give_back-set_aside q i,
          ),
          ground (
            arith,
            o.find-write Reservation k k (mark ReservationStatus.released r) s1.reservations,
          ),
        )

  -- A reservation that is not ACTIVE can be neither released nor confirmed: both throw
  -- `reservation_not_active` with its status, and leave the state as it was.
  pub ended_reservation_final :
      (now id : ℕ) (order : Option ℕ) (r : Reservation) (s : State o)
      → o.find Reservation id s.reservations ≡ some r
      → is_active r.status ≡ false
      → (release_reservation o id s ≡ (err (Error.reservation_not_active r.status), s))
        × (confirm_reservation o now id order s ≡ (err (Error.reservation_not_active r.status), s))
  unfolding release_reservation confirm_reservation
  ended_reservation_final now id order r s e a = (
    ground (
      arith,
      o.transaction-settle (State o) Error Hold (release_body o id) s,
      release_inactive o id s r e a,
    ),
    ground (
      arith,
      o.transaction-settle (State o) Error Hold (confirm_body o now id order) s,
      confirm_inactive o id s now order r e a,
    ),
  )

  -- For a known variant whose available count is not negative, the units that `addStock` adds can be
  -- removed by `removeStock`: both succeed, and the stock row is again what it was.
  pub remove-add :
      (v q : ℕ) (a b : Option Reference) (i : Inventory) (s : State o)
      → o.find (Unit {0}) v s.variants ≡ some tt
      → o.find Inventory v s.inventory ≡ some i
      → pos 0 ≤ℤ i.available
      → let (r1, s1) = add_stock o v q a s in
        let (r2, s2) = remove_stock o v q b s1 in
        (r1
          ≡ ok (
            added o q (some i),
            level_entry o v LedgerKind.stock_added (pos q) (reference_or a Reference.restock),
          ))
        × (r2
            ≡ ok (
              i,
              level_entry o v LedgerKind.stock_removed (pos q) (reference_or b Reference.write_off),
            ))
        × ((w : ℕ) → o.find Inventory w s2.inventory ≡ o.find Inventory w s.inventory)
  unfolding add_stock remove_stock
  remove-add v q a b i s known e level =
      let i' = added o q (some i) in
      let e1 = level_entry o v LedgerKind.stock_added (pos q) (reference_or a Reference.restock) in
      let s1 = stocked_state o v i' e1 s in
      let l1 =
        o.transaction-settle (State o) Error (Inventory × LedgerEntry) (add_body o v q a) s in
      let l2 =
        o.transaction-settle (State o) Error (Inventory × LedgerEntry) (remove_body o v q b) s1 in
      let here : o.find Inventory v s1.inventory ≡ some i' =
        ground (arith, o.find-write Inventory v v i' s.inventory) in
      let back : i.available +ℤ pos q -ℤ pos q ≡ i.available = omega int_laws in
      let first : add_stock o v q a s ≡ (ok (i', e1), s1) =
        ground (arith, l1, add_known o v s q a (some i) known e) in
      let e2 =
        level_entry o v LedgerKind.stock_removed (pos q) (reference_or b Reference.write_off) in
      let second : remove_stock o v q b s1 ≡ (ok (i, e2), stocked_state o v i e2 s1) = ground (
        arith,
        l2,
        back,
        +ℤ_parts i.available (pos q),
        remove_covered o v s1 q b i' here (ground (arith, +ℤ_parts i.available (pos q))),
      ) in
      rw (first, second)
        (
          refl,
          refl,
          λ w. ground (
            arith,
            o.find-write Inventory w v i s1.inventory,
            o.find-write Inventory w v i' s.inventory,
          ),
        )
