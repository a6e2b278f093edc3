-- ===== src/Inventory/Tests.antt =====
-- The theorems on stock and reservations, applied to the states of `Samples`.
use meeo_server.Base.{ℕ, ◌≡◌, refl, ◌⊎◌, none, some, List, [], ◌∷◌, arith, keep}
use meeo_server.Base.Int.{pos, ◌≤ℤ◌, ◌+ℤ◌, ◌-ℤ◌}
use meeo_server.Base.Result.{ok, err}
use meeo_server.Tables.{lists}
use meeo_server.Store.{
  Inventory, Reservation, ReservationStatus, LedgerKind, LedgerEntry, Reference, State, Error,
}
use meeo_server.Inventory.Holds.{Hold, give_back, commit, mark}
use meeo_server.Inventory.Reservations.{
  is_stale, reserve_stock, release_reservation, confirm_reservation, expire_stale_reservations,
}
use meeo_server.Inventory.Levels.{add_stock, remove_stock}
use meeo_server.Inventory.OrderHolds.{
  is_held_for, release_order_reservations, commit_order_reservations,
}
use meeo_server.Inventory.Balance.{IsSound}
use meeo_server.Inventory.Sweep.{Swept}
use meeo_server.Inventory.OrderStock.{release_order_reservations_lem, commit_order_reservations_lem}
use meeo_server.Inventory.Expiry.{expire_stale_reservations_lem, confirm_reservation_expired}
use meeo_server.Inventory.Requests.{Request, serve_all, serve_all-IsSound}
use meeo_server.Inventory.Chains.{Chain}
use meeo_server.Inventory.Refinement.{pool_at}
use meeo_server.Inventory.Realisation.{serve_all-Chain}
use meeo_server.Inventory.Outcomes.{reserve_stock_outcome, release-reserve, remove-add}
use meeo_server.Samples.{stock_row, hold_row, start, start-IsSound}

-- Of these the second, the fifth and the last throw.
abbrev requests : List Request
requests =
    Request.reserve 0 7 2 none 15
    ∷ Request.reserve 0 7 99 none 15
    ∷ Request.commit_order 4
    ∷ Request.release 2
    ∷ Request.confirm 0 2 none
    ∷ Request.add 7 5 none
    ∷ Request.expire 2000
    ∷ Request.remove 7 100 none
    ∷ []

serve_all-IsSound_example : IsSound lists (serve_all lists requests start)
serve_all-IsSound_example =
    serve_all-IsSound lists requests start
      (omega arith, (omega arith, (tt, (tt, (tt, (tt, (tt, (tt, tt)))))))) start-IsSound

serve_all-Chain_example :
    Chain 7 requests (pool_at lists 7 start) (pool_at lists 7 (serve_all lists requests start))
serve_all-Chain_example =
    serve_all-Chain lists requests start
      (omega arith, (omega arith, (tt, (tt, (tt, (tt, (tt, (tt, tt)))))))) start-IsSound 7

release-reserve_example :
    let s1 = (reserve_stock lists 0 7 2 none 15 start).1 in
    (h : Hold) × (s2 : State lists) × (release_reservation lists 2 s1 ≡ (ok h, s2))
    × ((w : ℕ) → lists.find Inventory w s2.inventory ≡ lists.find Inventory w start.inventory)
    × (lists.find Reservation 2 s2.reservations
        ≡ some (record {
          variant = 7;
          order = none;
          quantity = 2;
          status = ReservationStatus.released;
          expires_at = 900_000;
        }))
release-reserve_example = release-reserve lists 0 7 2 none 15 start stock_row refl (ground arith)

remove-add_example :
    let (r1, s1) = add_stock lists 7 4 none start in
    let (r2, s2) = remove_stock lists 7 4 none s1 in
    (r1
      ≡ ok (
        record stock_row { available = pos 14 },
        record {
          variant = 7;
          kind = LedgerKind.stock_added;
          quantity = pos 4;
          reference = Reference.restock;
        },
      ))
    × (r2
        ≡ ok (
          stock_row,
          record {
            variant = 7;
            kind = LedgerKind.stock_removed;
            quantity = pos 4;
            reference = Reference.write_off;
          },
        ))
    × ((w : ℕ) → lists.find Inventory w s2.inventory ≡ lists.find Inventory w start.inventory)
unfolding ◌+ℤ◌
remove-add_example = remove-add lists 7 4 none none stock_row start refl refl (ground arith)

expire_stale_reservations_lem_example :
    (s' : State lists) × (expire_stale_reservations lists 2000 start ≡ (ok (1, 3), s'))
    × Swept lists give_back (mark ReservationStatus.expired) ((1, hold_row) ∷ []) start s'
    × ((j : ℕ) → keep (is_stale 2000) (lists.find Reservation j s'.reservations) ≡ none)
expire_stale_reservations_lem_example = expire_stale_reservations_lem lists 2000 start start-IsSound

release_order_reservations_lem_example :
    (s' : State lists) × (release_order_reservations lists 4 start ≡ (ok 1, s'))
    × Swept lists give_back (mark ReservationStatus.released) ((1, hold_row) ∷ []) start s'
    × ((j : ℕ) → keep (is_held_for 4) (lists.find Reservation j s'.reservations) ≡ none)
release_order_reservations_lem_example = release_order_reservations_lem lists 4 start start-IsSound

commit_order_reservations_lem_example :
    (s' : State lists) × (commit_order_reservations lists 4 start ≡ (ok tt, s'))
    × Swept lists commit (mark ReservationStatus.confirmed) ((1, hold_row) ∷ []) start s'
    × ((j : ℕ) → keep (is_held_for 4) (lists.find Reservation j s'.reservations) ≡ none)
commit_order_reservations_lem_example = commit_order_reservations_lem lists 4 start start-IsSound

confirm_reservation_expired_example :
    confirm_reservation lists 2000 1 none start ≡ (err Error.reservation_expired, start)
confirm_reservation_expired_example =
    confirm_reservation_expired lists 2000 start 1 none hold_row start-IsSound refl refl refl

reserve_stock_outcome_example :
    ((some stock_row ≡ none)
      × (reserve_stock lists 0 7 2 none 15 start ≡ (err Error.inventory_not_found, start)))
    ⊎ (((i : Inventory) × (some stock_row ≡ some i)
          × (i.available +ℤ pos 1 ≤ℤ pos 2)
          × (reserve_stock lists 0 7 2 none 15 start ≡ (err Error.insufficient_stock, start)))
        ⊎ ((i : Inventory) × (some stock_row ≡ some i)
            × (pos 2 ≤ℤ i.available)
            × (let r : Reservation = record {
              variant = 7;
              order = none;
              quantity = 2;
              status = ReservationStatus.active;
              expires_at = 900_000;
            } in
                let i' : Inventory = record i {
                  available = i.available -ℤ pos 2;
                  reserved = i.reserved +ℤ pos 2;
                } in
                let e : LedgerEntry = record {
                  variant = 7;
                  kind = LedgerKind.order_reserved;
                  quantity = pos 2;
                  reference = Reference.reservation 2;
                } in
                reserve_stock lists 0 7 2 none 15 start ≡ (
                  ok (record { key = 2; reservation = r; inventory = i'; entry = e }),
                  record start {
                    inventory = (7, i') ∷ [];
                    reservations = (1, hold_row) ∷ (2, r) ∷ [];
                    ledger = e ∷ [];
                  },
                ))))
reserve_stock_outcome_example = reserve_stock_outcome lists 0 7 2 none 15 start
