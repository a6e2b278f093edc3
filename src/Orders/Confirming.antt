-- ===== src/Orders/Confirming.antt =====
-- What `confirmOrder` (`orderFulfillment.service.ts`) returns and leaves.
use mathlib.Core.Option
use meeo_server.Base.{
  ℕ, ◌≡◌, ◌⊎◌, inl, inr, Option, none, some, true, false, arith, keep, Option-cases, Bool-cases,
  ==_refl,
}
use meeo_server.Base.Result.{ok, err}
use meeo_server.Orm.{Orm}
use meeo_server.Store.{Inventory, Reservation, OrderStatus, same_order_status, Order, State, Error}
use meeo_server.Inventory.Holds.{commit}
use meeo_server.Inventory.OrderHolds.{is_held_for, commit_order_reservations}
use meeo_server.Inventory.Balance.{IsSound}
use meeo_server.Inventory.Sweep.{units}
use meeo_server.Inventory.OrderStock.{holds_of, commit_order_reservations_lem}
use meeo_server.Orders.Transitions.{allowed_from, is_valid_transition}
use meeo_server.Orders.Status.{with_status}
use meeo_server.Orders.Fulfillment.{is_unconfirmed, confirm_order}
use meeo_server.Orders.Outcomes.{update_order_status_moves}

unconfirmed_moves :
    (a : OrderStatus)
    → is_unconfirmed a ≡ true
    → (is_valid_transition a OrderStatus.confirmed ≡ true)
      × (same_order_status a OrderStatus.confirmed ≡ false)
unfolding is_valid_transition allowed_from
unconfirmed_moves a h = ground arith

module _ (o : Orm) where
  -- What a confirmation has done: the state is sound, the order is CONFIRMED and otherwise as
  -- before, no active hold of it is left, and the units of its active holds are off the reserved
  -- counts, with the available counts as before.
  pub record IsConfirmed (id : ℕ) (order : Order) (s s' : State o) : Type 0 where
    pub sound : IsSound o s'
    pub confirmed : o.find Order id s'.orders ≡ some (with_status OrderStatus.confirmed order)
    pub no_hold : (j : ℕ) → keep (is_held_for id) (o.find Reservation j s'.reservations) ≡ none
    pub stock :
        (v : ℕ)
        → o.find Inventory v s'.inventory
          ≡ Option.map (commit (units v (holds_of o id s))) (o.find Inventory v s.inventory)

  module _ (now id : ℕ) (changed_by : Option ℕ) (s : State o) where
    confirm_open_order :
        (order : Order)
        → IsSound o s
        → o.find Order id s.orders ≡ some order
        → is_unconfirmed order.status ≡ true
        → (s' : State o) × (confirm_order o now id changed_by s
            ≡ (ok (some (with_status OrderStatus.confirmed order)), s'))
          × IsConfirmed id order s s'
    unfolding confirm_order
    confirm_open_order order c here waits =
        let (s1, e1, after, left) = commit_order_reservations_lem o id s c in
        let (valid, differs) = unconfirmed_moves order.status waits in
        let same : s1.orders ≡ s.orders = ground (arith, after.rest) in
        let there : o.find Order id s1.orders ≡ some order = ground arith in
        let (s2, e2, moved) =
          update_order_status_moves o now id OrderStatus.confirmed changed_by s1 order after.sound
            there differs valid in
        (
          s2,
          ground (
            arith,
            o.transaction-settle (State o) Error (Unit {0}) (commit_order_reservations o id) s,
          ),
          elim moved.stock [
            | inl (bad, _) ↦ absurd (cc)
            | inr (_, inventory, reservations) ↦ record {
              sound = moved.sound;
              confirmed = ground (arith, moved.orders id, ==_refl id);
              no_hold = λ j. rw reservations (left j);
              stock = λ v. rw inventory (after.stock v);
            }
          ],
        )

    -- Confirming an order, in a sound state, does one of three things. An order that is not there is
    -- refused with `order_not_found`, and one that is neither PENDING nor PAYMENT_PENDING with
    -- `cannot_confirm`; both leave the state as it was. Any other order is confirmed, and
    -- `IsConfirmed` holds of the state that is left.
    pub confirm_order_outcome :
        IsSound o s
        → ((o.find Order id s.orders ≡ none)
            × (confirm_order o now id changed_by s ≡ (err Error.order_not_found, s)))
          ⊎ ((order : Order) × (o.find Order id s.orders ≡ some order)
              × (((is_unconfirmed order.status ≡ false)
                    × (confirm_order o now id changed_by s
                        ≡ (err (Error.cannot_confirm order.status), s)))
                  ⊎ ((is_unconfirmed order.status ≡ true)
                      × ((s' : State o) × (confirm_order o now id changed_by s
                            ≡ (ok (some (with_status OrderStatus.confirmed order)), s'))
                          × IsConfirmed id order s s'))))
    unfolding confirm_order
    confirm_order_outcome c = elim (Option-cases (o.find Order id s.orders)) [
      | inl e ↦ inl (e, ground arith)
      | inr (order, e) ↦ elim (Bool-cases (is_unconfirmed order.status)) [
        | inl waits ↦ inr (order, e, inr (waits, confirm_open_order order c e waits))
        | inr late ↦ inr (order, e, inl (late, ground arith))
      ]
    ]
