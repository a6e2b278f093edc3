-- ===== src/Orders/Updates.antt =====
-- `updateOrderStatus` (`orderStatus.service.ts`): what its transaction leaves.
use mathlib.Core.Option
use meeo_server.Base.{
  ℕ, ◌≡◌, refl, subst, inl, inr, Option, none, some, ◌∷◌, arith, if◌then◌else◌, keep, Bool-cases,
  Option-cases, ◌⊎◌, ◌==◌,
}
use meeo_server.Base.Result.{ok}
use meeo_server.Orm.{Orm}
use meeo_server.Store.{
  Inventory, Reservation, Payment, PaymentStatus, EventKind, TransactionKind, TransactionStatus,
  State, find_first, rewrite_all, update_payments,
}
use meeo_server.Store.Rows.{find-update_many, find_first-found}
use meeo_server.Inventory.OrderHolds.{is_held_for}
use meeo_server.Inventory.Balance.{IsSound}
use meeo_server.Inventory.Holds.{give_back}
use meeo_server.Inventory.Sweep.{units}
use meeo_server.Inventory.OrderStock.{holds_of, release_order_reservations_lem}
use meeo_server.Orders.Status.{is_pending_cod, is_pending_of, settle_cod, resolve_cod, end_unsold}

module _ (o : Orm) where
  abbrev pub failed_at : ℕ → Payment → Payment
  failed_at now p = record p { status = PaymentStatus.failed; failed_at = some now }

  -- The order has no active hold and no pending payment left: the pending ones have failed, and other
  -- payments are as before. The units of the holds that were active are available again.
  pub record IsWoundUp (now id : ℕ) (s s' : State o) : Type 0 where
    pub no_hold : (j : ℕ) → keep (is_held_for id) (o.find Reservation j s'.reservations) ≡ none
    pub no_pending : (j : ℕ) → keep (is_pending_of id) (o.find Payment j s'.payments) ≡ none
    pub payments :
        (j : ℕ)
        → o.find Payment j s'.payments
          ≡ Option.map
              (λ p. if is_pending_of id p then failed_at now p else p)
              (o.find Payment j s.payments)
    pub stock :
        (v : ℕ)
        → o.find Inventory v s'.inventory
          ≡ Option.map (give_back (units v (holds_of o id s))) (o.find Inventory v s.inventory)

  -- The orders and their history are the same.
  pub record SameSales (s s' : State o) : Type 0 where
    pub orders : s'.orders ≡ s.orders
    pub history : s'.history ≡ s.history

  none_pending :
      (now id j : ℕ) (t : o.Table Payment)
      → keep (is_pending_of id) (
          o.find Payment j
            (rewrite_all o (failed_at now) (o.find_many Payment (is_pending_of id) t) t))
        ≡ none
  none_pending now id j t =
      rw (find-update_many o (is_pending_of id) (failed_at now) t j) (go (o.find Payment j t))
    where
      go :
          (x : Option Payment)
          → keep
              (is_pending_of id)
              (Option.map (λ p. if is_pending_of id p then failed_at now p else p) x)
            ≡ none
      go none = refl
      go (some p) = elim (Bool-cases (is_pending_of id p)) [
        | inl e ↦ ground arith
        | inr e ↦ ground arith
      ]

  pub end_unsold_lem :
      (now id : ℕ) (s : State o)
      → IsSound o s
      → (s' : State o) × (end_unsold o now id s ≡ (ok tt, s'))
        × IsSound o s'
        × IsWoundUp now id s s'
        × SameSales s s'
  unfolding end_unsold update_payments
  end_unsold_lem now id s c =
      let (s1, e, after, left) = release_order_reservations_lem o id s c in
      (
        record s1 {
          payments =
              rewrite_all o (failed_at now) (o.find_many Payment (is_pending_of id) s1.payments)
                s1.payments;
        },
        ground arith,
        after.sound,
        record {
          no_hold = left;
          no_pending = λ j. none_pending now id j s1.payments;
          payments = λ j.
              let same : s1.payments ≡ s.payments = ground (arith, after.rest) in
              subst
                (λ t.
                  o.find Payment j (
                    rewrite_all o (failed_at now)
                      (o.find_many Payment (is_pending_of id) s1.payments) s1.payments)
                  ≡ Option.map (λ p. if is_pending_of id p then failed_at now p else p)
                      (o.find Payment j t))
                same (find-update_many o (is_pending_of id) (failed_at now) s1.payments j);
          stock = after.stock;
        },
        record { orders = ground (arith, after.rest); history = ground (arith, after.rest) },
      )

  -- Only payments, their transactions and the outbox differ.
  pub record OnlyPaid (s s' : State o) : Type 0 where
    pub orders : s'.orders ≡ s.orders
    pub history : s'.history ≡ s.history
    pub inventory : s'.inventory ≡ s.inventory
    pub reservations : s'.reservations ≡ s.reservations

  -- The first pending payment on delivery of the order, if there is one, is paid in full, with a
  -- charge recorded; no other payment is written.
  abbrev pub IsCollected : ℕ → ℕ → State o → State o → Type 0
  IsCollected now id s s' =
      ((find_first o (is_pending_cod id) s.payments ≡ none)
        × (s'.payments ≡ s.payments)
        × (s'.transactions ≡ s.transactions))
      ⊎ ((k : ℕ) × (p : Payment) × (find_first o (is_pending_cod id) s.payments ≡ some (k, p))
          × ((j : ℕ)
              → o.find Payment j s'.payments ≡ (
                  if k == j
                  then some (record p {
                    status = PaymentStatus.success;
                    paid = p.amount;
                    paid_at = some now;
                  })
                  else o.find Payment j s.payments))
          × (s'.transactions
              ≡ record {
                payment = k;
                attempt = none;
                kind = TransactionKind.charge;
                status = TransactionStatus.success;
                amount = p.amount;
              }
                ∷ s.transactions))

  pub resolve_cod_lem :
      (now id : ℕ) (s : State o)
      → (s' : State o) × (resolve_cod o now id s ≡ (ok tt, s'))
        × OnlyPaid s s'
        × IsCollected now id s s'
  unfolding resolve_cod settle_cod
  resolve_cod_lem now id s = elim (Option-cases (find_first o (is_pending_cod id) s.payments)) [
    | inl e ↦ (
      s,
      ground arith,
      record { orders = refl; history = refl; inventory = refl; reservations = refl },
      inl (e, refl, refl),
    )
    | inr ((k, p), e) ↦
        let (here, test) = find_first-found o (is_pending_cod id) s.payments k p e in
        let p' : Payment = record p {
          status = PaymentStatus.success;
          paid = p.amount;
          paid_at = some now;
        } in
        (
          record s {
            payments = o.write Payment k p' s.payments;
            transactions =
                record {
                  payment = k;
                  attempt = none;
                  kind = TransactionKind.charge;
                  status = TransactionStatus.success;
                  amount = p.amount;
                }
                ∷ s.transactions;
            outbox =
                record { kind = EventKind.order_paid; aggregate = k; order = id; amount = p.amount }
                ∷ s.outbox;
          },
          ground arith,
          record { orders = refl; history = refl; inventory = refl; reservations = refl },
          inr (k, p, e, λ j. o.find-write Payment j k p' s.payments, refl),
        )
  ]
