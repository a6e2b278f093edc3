-- ===== src/Orders/Tests.antt =====
-- The theorems on orders, applied to the states of `Samples`.
use meeo_server.Base.{ℕ, ◌≡◌, ◌≢◌, refl, ◌↔◌, ◌⊎◌, none, some, true, false, List, [], ◌∷◌, arith}
use meeo_server.Base.Result.{ok, err}
use meeo_server.Tables.{lists}
use meeo_server.Store.{OrderStatus, same_order_status, Order, State, Error}
use meeo_server.Orders.Status.{with_status, is_cancellable, update_order_status, cancel_order}
use meeo_server.Orders.Transitions.{
  allowed_from, is_valid_transition, IsMove, Trace, has_stage, valid_transition_iff,
  no_stage_skipped,
}
use meeo_server.Orders.Outcomes.{IsMoved, update_order_status_outcome}
use meeo_server.Orders.Cancelling.{cancel_order_outcome}
use meeo_server.Orders.Fulfillment.{is_unconfirmed, confirm_order}
use meeo_server.Orders.Confirming.{IsConfirmed, confirm_order_outcome}
use meeo_server.Samples.{start, start-IsSound, order_row}

update_order_status_outcome_example :
    ((some order_row ≡ none)
      × (update_order_status lists 60 4 OrderStatus.expired none start
          ≡ (err Error.order_not_found, start)))
    ⊎ ((order : Order) × (some order_row ≡ some order)
        × (((is_valid_transition order.status OrderStatus.expired ≡ false)
              × (update_order_status lists 60 4 OrderStatus.expired none start
                  ≡ (err (Error.bad_transition order.status OrderStatus.expired), start)))
            ⊎ (((same_order_status order.status OrderStatus.expired ≡ true)
                  × (update_order_status lists 60 4 OrderStatus.expired none start
                      ≡ (ok (some order), start)))
                ⊎ ((same_order_status order.status OrderStatus.expired ≡ false)
                    × (is_valid_transition order.status OrderStatus.expired ≡ true)
                    × ((s' : State lists) × (update_order_status lists 60 4 OrderStatus.expired none
                            start
                          ≡ (ok (some (with_status OrderStatus.expired order)), s'))
                        × IsMoved lists 60 4 order OrderStatus.expired none start s')))))
update_order_status_outcome_example =
    update_order_status_outcome lists 60 4 OrderStatus.expired none start start-IsSound

cancel_order_outcome_example :
    ((some order_row ≡ none)
      × (cancel_order lists 60 4 (some 9) false start ≡ (err Error.order_not_found, start)))
    ⊎ ((order : Order) × (some order_row ≡ some order)
        × (((false ≡ false)
              × ((u : ℕ) × (some 9 ≡ some u) × (order.user ≢ some u))
              × (cancel_order lists 60 4 (some 9) false start ≡ (err Error.not_owner, start)))
            ⊎ (((false ≡ false)
                  × ((u : ℕ) → some 9 ≡ some u → order.user ≡ some u)
                  × (is_cancellable order.status ≡ false)
                  × (cancel_order lists 60 4 (some 9) false start
                      ≡ (err (Error.cannot_cancel order.status), start)))
                ⊎ ((((false ≡ true) ⊎ ((u : ℕ) → some 9 ≡ some u → order.user ≡ some u))
                      × (is_cancellable order.status ≡ true)
                      × ((s' : State lists) × (cancel_order lists 60 4 (some 9) false start
                            ≡ (ok (some (with_status OrderStatus.cancelled order)), s'))
                          × IsMoved lists 60 4 order OrderStatus.cancelled (some 9) start s'))
                    ⊎ ((false ≡ true)
                        × (is_cancellable order.status ≡ false)
                        × (cancel_order lists 60 4 (some 9) false start
                            ≡ update_order_status lists 60 4 OrderStatus.cancelled
                                (some 9)
                                start))))))
cancel_order_outcome_example = cancel_order_outcome lists 60 4 (some 9) false start start-IsSound

valid_transition_iff_example :
    (is_valid_transition OrderStatus.processing OrderStatus.shipped ≡ true) ↔ (
      (OrderStatus.processing ≡ OrderStatus.shipped)
      ⊎ IsMove OrderStatus.processing OrderStatus.shipped)
valid_transition_iff_example = valid_transition_iff OrderStatus.processing OrderStatus.shipped

abbrev way : List OrderStatus
way =
    OrderStatus.confirmed ∷ OrderStatus.processing ∷ OrderStatus.shipped ∷ OrderStatus.delivered
    ∷ []

way-Trace : Trace OrderStatus.pending OrderStatus.delivered way
unfolding is_valid_transition allowed_from
way-Trace = Trace.then refl (Trace.then refl (Trace.then refl (Trace.then refl Trace.here)))

no_stage_skipped_example : has_stage 3 way ≡ true
no_stage_skipped_example = no_stage_skipped way-Trace (omega arith) 3 (omega arith) (omega arith)

confirm_order_outcome_example :
    ((some order_row ≡ none)
      × (confirm_order lists 60 4 (some 8) start ≡ (err Error.order_not_found, start)))
    ⊎ ((order : Order) × (some order_row ≡ some order)
        × (((is_unconfirmed order.status ≡ false)
              × (confirm_order lists 60 4 (some 8) start
                  ≡ (err (Error.cannot_confirm order.status), start)))
            ⊎ ((is_unconfirmed order.status ≡ true)
                × ((s' : State lists) × (confirm_order lists 60 4 (some 8) start
                      ≡ (ok (some (with_status OrderStatus.confirmed order)), s'))
                    × IsConfirmed lists 4 order start s'))))
confirm_order_outcome_example = confirm_order_outcome lists 60 4 (some 8) start start-IsSound
