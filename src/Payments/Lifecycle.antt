-- ===== src/Payments/Lifecycle.antt =====
-- Verification repeated, verification of an order that has ended, and an administrator's update
-- (`paymentVerification.service.ts`).
use meeo_server.Base.{
  ℕ, ◌≡◌, ◌≢◌, ==_iff, Option-cases, refl, sym, ◌∙◌, ◌⊎◌, inl, inr, Option, none, some, true, false,
  List, ◌∷◌, arith, ==_refl, Bool-cases,
}
use meeo_server.Base.Result.{ok}
use meeo_server.Orm.{Orm}
use meeo_server.Store.{
  Order, OrderStatus, Payment, PaymentStatus, is_success, State, Error, find_first, TransactionKind,
  TransactionStatus, EventKind,
}
use meeo_server.Store.Rows.{find_first-found, find_first-none}
use meeo_server.Inventory.Balance.{IsSound}
use meeo_server.Orders.Status.{with_status}
use meeo_server.Orders.Fulfillment.{is_unconfirmed}
use meeo_server.Orders.Transitions.{allowed_from, is_valid_transition, stage}
use meeo_server.Payments.Gateway.{Crypto}
use meeo_server.Payments.Verification.{
  is_payment_of, Callback, is_forged, paid_in_full, verify_payment, revised, given_or,
  manual_success, manual_effect, manual_body, update_payment_status,
}
use meeo_server.Payments.Confirmation.{IsPaidFor, verify_payment_confirms}

ended_forbids :
    (a : OrderStatus) → stage a ≡ 5 → is_valid_transition a OrderStatus.confirmed ≡ false
unfolding is_valid_transition allowed_from
ended_forbids a h = ground arith

module _ (o : Orm) where
  module _ (now k : ℕ) (p : Payment) (order : Order) (s : State o) (crypto : Crypto)
      (secret : List ℕ) where
    -- Verification repeated: once an authentic callback has verified the payment `k` of an order, in a
    -- sound state, a later authentic callback for that order, at whatever time, does one of two
    -- things. It is answered as verified before, and changes nothing; or the query finds another
    -- payment of the order, which was there before and is not SUCCESS, and that is now marked
    -- as paid in full as well. So an order with no other unpaid payment is verified once.
    pub verify_payment_twice :
        (later : ℕ) (input again : Callback)
        → IsSound o s
        → is_forged crypto secret input ≡ false
        → is_forged crypto secret again ≡ false
        → again.order ≡ input.order
        → find_first o (is_payment_of input.order) s.payments ≡ some (k, p)
        → is_success p.status ≡ false
        → o.find Order p.order s.orders ≡ some order
        → (s' : State o) × (verify_payment o crypto secret now input s ≡ (ok (k, false), s'))
          × (((j : ℕ) × (verify_payment o crypto secret later again s' ≡ (ok (j, true), s')))
              ⊎ ((j : ℕ) × (q : Payment) × (j ≢ k)
                  × (o.find Payment j s.payments ≡ some q)
                  × (q.order ≡ input.order)
                  × (is_success q.status ≡ false)
                  × ((s2 : State o) × (verify_payment o crypto secret later again s'
                        ≡ (ok (j, false), s2))
                      × IsPaidFor o later j q (with_status OrderStatus.confirmed order) s' s2)))
    unfolding verify_payment
    verify_payment_twice later input again c genuine genuine' same found fresh there =
        let (s', e, after) =
          verify_payment_confirms o now k p order s crypto secret input c genuine found fresh
            there in
        (
          s',
          e,
          repeated s' after (Option-cases (find_first o (is_payment_of again.order) s'.payments)),
        )
      where
        own : p.order ≡ input.order
        own =
            (==_iff p.order input.order).0
              (find_first-found o (is_payment_of input.order) s.payments k p found).1

        Repeated : State o → Type 0
        Repeated s' =
            ((j : ℕ) × (verify_payment o crypto secret later again s' ≡ (ok (j, true), s')))
            ⊎ ((j : ℕ) × (q : Payment) × (j ≢ k)
                × (o.find Payment j s.payments ≡ some q)
                × (q.order ≡ input.order)
                × (is_success q.status ≡ false)
                × ((s2 : State o) × (verify_payment o crypto secret later again s'
                      ≡ (ok (j, false), s2))
                    × IsPaidFor o later j q (with_status OrderStatus.confirmed order) s' s2))

        other :
            (s' : State o) (j : ℕ) (q : Payment)
            → IsPaidFor o now k p order s s'
            → find_first o (is_payment_of again.order) s'.payments ≡ some (j, q)
            → is_success q.status ≡ false
            → Repeated s'
        other s' j q after query unpaid =
            let (at, test) = find_first-found o (is_payment_of again.order) s'.payments j q query in
            let mine : q.order ≡ again.order = (==_iff q.order again.order).0 test in
            let (s2, e2, after2) =
              verify_payment_confirms o later j q (with_status OrderStatus.confirmed order) s'
                crypto secret again after.sound genuine' query unpaid
                (ground (arith, after.confirmed, mine ∙ same ∙ sym own)) in
            let differs : j ≢ k = λ e. ground (arith, after.payments j, ==_refl k) in
            inr (
              j,
              q,
              differs,
              ground (arith, after.payments j, ==_iff k j),
              mine ∙ same,
              unpaid,
              (s2, e2, after2),
            )

        repeated :
            (s' : State o)
            → IsPaidFor o now k p order s s'
            → (find_first o (is_payment_of again.order) s'.payments ≡ none)
              ⊎ ((x : ℕ × Payment) × (find_first o (is_payment_of again.order) s'.payments
                    ≡ some x))
            → Repeated s'
        repeated s' after (inl empty) =
            let gone =
              find_first-none o (is_payment_of again.order) s'.payments k (paid_in_full now p) empty
                (ground (arith, after.payments k, ==_refl k)) in
            absurd (ground (arith, own, ==_iff p.order again.order))
        repeated s' after (inr ((j, q), query)) = elim (Bool-cases (is_success q.status)) [
          | inl paid ↦ inl (j, ground arith)
          | inr unpaid ↦ other s' j q after query unpaid
        ]

    -- Verification does not ask what the status of the order is: in a sound state, an authentic
    -- callback for a payment that is not yet SUCCESS makes an order that is CANCELLED, EXPIRED or
    -- REFUNDED CONFIRMED, which the state machine of orders forbids.
    pub verify_payment_revives :
        (input : Callback)
        → IsSound o s
        → is_forged crypto secret input ≡ false
        → find_first o (is_payment_of input.order) s.payments ≡ some (k, p)
        → is_success p.status ≡ false
        → o.find Order p.order s.orders ≡ some order
        → stage order.status ≡ 5
        → (is_valid_transition order.status OrderStatus.confirmed ≡ false)
          × (s' : State o) × (verify_payment o crypto secret now input s ≡ (ok (k, false), s'))
          × (o.find Order p.order s'.orders ≡ some (with_status OrderStatus.confirmed order))
    verify_payment_revives input c genuine found fresh there ended =
        let (s', e, after) =
          verify_payment_confirms o now k p order s crypto secret input c genuine found fresh
            there in
        (ended_forbids order.status ended, s', e, after.confirmed)

  -- An administrator's SUCCESS for a payment whose order is PENDING or PAYMENT_PENDING confirms the
  -- order and records the amount as paid, but leaves every stock row and every reservation as it
  -- was: the order's holds stay ACTIVE, and are not made sales as `verifyPayment` makes them.
  pub manual_success_keeps_holds :
      (now k : ℕ) (amount admin : Option ℕ) (p : Payment) (order : Order) (s : State o)
      → o.find Payment k s.payments ≡ some p
      → o.find Order p.order s.orders ≡ some order
      → is_unconfirmed order.status ≡ true
      → let p' : Payment = revised now PaymentStatus.success (given_or amount p.amount) p in
        (s' : State o) × (update_payment_status o now k PaymentStatus.success amount admin s
          ≡ (ok (some p'), s'))
        × (o.find Order p.order s'.orders ≡ some (with_status OrderStatus.confirmed order))
        × (s'.inventory ≡ s.inventory)
        × (s'.reservations ≡ s.reservations)
  unfolding update_payment_status manual_body manual_effect manual_success
  manual_success_keeps_holds now k amount admin p order s here there open_order =
      let sum = given_or amount p.amount in
      let p' : Payment = revised now PaymentStatus.success sum p in
      let s' : State o = record s {
        payments = o.write Payment k p' s.payments;
        orders = o.write Order p.order (with_status OrderStatus.confirmed order) s.orders;
        history =
            record {
              order = p.order;
              previous = order.status;
              next = OrderStatus.confirmed;
              changed_by = admin;
            }
            ∷ s.history;
        transactions =
            record {
              payment = k;
              attempt = none;
              kind = TransactionKind.charge;
              status = TransactionStatus.success;
              amount = sum;
            }
            ∷ s.transactions;
        outbox =
            record { kind = EventKind.order_paid; aggregate = k; order = p.order; amount = sum }
            ∷ s.outbox;
      } in
      (
        s',
        ground (
          arith,
          o.transaction-settle (State o) Error (Unit {0})
              (manual_body o now k PaymentStatus.success sum admin p (some order)) s,
          o.find-write Payment k k p' s.payments,
          ==_refl k,
        ),
        ground (
          arith,
          o.find-write Order p.order p.order (with_status OrderStatus.confirmed order) s.orders,
          ==_refl p.order,
        ),
        refl,
        refl,
      )
