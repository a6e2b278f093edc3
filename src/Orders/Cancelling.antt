-- ===== src/Orders/Cancelling.antt =====
-- What `cancelOrder` (`orderStatus.service.ts`) returns and leaves.
use meeo_server.Base.{
  ℕ, ◌≡◌, ◌≢◌, refl, ◌==◌, ==_iff, ◌⊎◌, inl, inr, Option, none, some, Bool, true, false, not, ◌&&◌,
  arith, Option-cases, Bool-cases,
}
use meeo_server.Base.Result.{ok, err}
use meeo_server.Orm.{Orm}
use meeo_server.Store.{OrderStatus, same_order_status, Order, State, Error}
use meeo_server.Inventory.Balance.{IsSound}
use meeo_server.Orders.Transitions.{allowed_from, is_valid_transition}
use meeo_server.Orders.Status.{
  with_status, update_order_status, is_stranger, is_cancellable, cancel_order,
}
use meeo_server.Orders.Outcomes.{IsMoved, update_order_status_moves}

cancellable_moves :
    (a : OrderStatus)
    → is_cancellable a ≡ true
    → (is_valid_transition a OrderStatus.cancelled ≡ true)
      × (same_order_status a OrderStatus.cancelled ≡ false)
unfolding is_valid_transition allowed_from
cancellable_moves a h = ground arith

module _ (o : Orm) where
  cancel_order_moves :
      (now id : ℕ) (user : Option ℕ) (is_admin : Bool) (order : Order) (s : State o)
      → IsSound o s
      → o.find Order id s.orders ≡ some order
      → (not is_admin && is_stranger user order.user) ≡ false
      → is_cancellable order.status ≡ true
      → (s' : State o) × (cancel_order o now id user is_admin s
          ≡ (ok (some (with_status OrderStatus.cancelled order)), s'))
        × IsMoved o now id order OrderStatus.cancelled user s s'
  unfolding cancel_order
  cancel_order_moves now id user is_admin order s c e entitled early =
      let (valid, differs) = cancellable_moves order.status early in
      let (s', done, after) =
        update_order_status_moves o now id OrderStatus.cancelled user s order c e differs valid in
      (s', ground arith, after)

  -- Who asks, if a user is named, is not the order's owner; or is, or is not named.
  stranger_cases :
      (user owner : Option ℕ)
      → ((u : ℕ) × (user ≡ some u) × (owner ≢ some u) × (is_stranger user owner ≡ true))
        ⊎ (((u : ℕ) → user ≡ some u → owner ≡ some u) × (is_stranger user owner ≡ false))
  stranger_cases none owner = inr (λ u e. cc, refl)
  stranger_cases (some u) none = inl (u, refl, λ e. cc, refl)
  stranger_cases (some u) (some w) = elim (Bool-cases (w == u)) [
    | inl same ↦ inr (λ v e. ground (arith, ==_iff w u), ground arith)
    | inr other ↦ inl (u, refl, λ e. ground (arith, ==_iff w u), ground arith)
  ]

  -- Cancelling, in a sound state, does one of five things. An order that is not there is refused
  -- with `order_not_found`; a user who is neither an administrator nor the owner with `not_owner`;
  -- and a call of the owner, or of nobody that is named, for an order past CONFIRMED or at an end with
  -- `cannot_cancel`: these leave the state as it was. An order that is PENDING, PAYMENT_PENDING or
  -- CONFIRMED is cancelled, for an administrator, for its owner, and for a call that names no user,
  -- and for nobody else; `IsMoved` holds of the state that is left. An administrator's call for any
  -- other order is the status update to CANCELLED.
  pub cancel_order_outcome :
      (now id : ℕ) (user : Option ℕ) (is_admin : Bool) (s : State o)
      → IsSound o s
      → ((o.find Order id s.orders ≡ none)
          × (cancel_order o now id user is_admin s ≡ (err Error.order_not_found, s)))
        ⊎ ((order : Order) × (o.find Order id s.orders ≡ some order)
            × (((is_admin ≡ false)
                  × ((u : ℕ) × (user ≡ some u) × (order.user ≢ some u))
                  × (cancel_order o now id user is_admin s ≡ (err Error.not_owner, s)))
                ⊎ (((is_admin ≡ false)
                      × ((u : ℕ) → user ≡ some u → order.user ≡ some u)
                      × (is_cancellable order.status ≡ false)
                      × (cancel_order o now id user is_admin s
                          ≡ (err (Error.cannot_cancel order.status), s)))
                    ⊎ ((((is_admin ≡ true) ⊎ ((u : ℕ) → user ≡ some u → order.user ≡ some u))
                          × (is_cancellable order.status ≡ true)
                          × ((s' : State o) × (cancel_order o now id user is_admin s
                                ≡ (ok (some (with_status OrderStatus.cancelled order)), s'))
                              × IsMoved o now id order OrderStatus.cancelled user s s'))
                        ⊎ ((is_admin ≡ true)
                            × (is_cancellable order.status ≡ false)
                            × (cancel_order o now id user is_admin s
                                ≡ update_order_status o now id OrderStatus.cancelled user s))))))
  unfolding cancel_order
  cancel_order_outcome now id user is_admin s c = elim (Option-cases (o.find Order id s.orders)) [
    | inl e ↦ inl (e, ground arith)
    | inr (order, e) ↦ elim (Bool-cases is_admin) [
      | inl admin ↦ elim (Bool-cases (is_cancellable order.status)) [
        | inl early ↦ inr (
          order,
          e,
          inr (
              inr (
                inl (
                  inl admin,
                  early,
                  cancel_order_moves now id user is_admin order s c e (ground arith) early,
                ))),
        )
        | inr late ↦ inr (order, e, inr (inr (inr (admin, late, ground arith))))
      ]
      | inr customer ↦ elim (stranger_cases user order.user) [
        | inl (u, named, other, stranger) ↦
            inr (order, e, inl (customer, (u, named, other), ground arith))
        | inr (owner, entitled) ↦ elim (Bool-cases (is_cancellable order.status)) [
          | inl early ↦ inr (
            order,
            e,
            inr (
                inr (
                  inl (
                    inr owner,
                    early,
                    cancel_order_moves now id user is_admin order s c e (ground arith) early,
                  ))),
          )
          | inr late ↦ inr (order, e, inr (inl (customer, owner, late, ground arith)))
        ]
      ]
    ]
  ]
