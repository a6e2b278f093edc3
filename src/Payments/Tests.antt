-- ===== src/Payments/Tests.antt =====
-- The theorems on payments, applied to the states of `Samples`.
use meeo_server.Base.{
  ℕ, ◌≤◌, ◌<◌, ◌≡◌, ◌≢◌, refl, ◌⊎◌, none, some, true, false, List, [], ◌∷◌, arith,
}
use meeo_server.Base.Result.{ok, err}
use meeo_server.Tables.{lists}
use meeo_server.Store.{OrderStatus, Order, AttemptStatus, PaymentStatus, State, Error}
use meeo_server.Orders.Status.{with_status}
use meeo_server.Orders.Transitions.{is_valid_transition}
use meeo_server.Payments.Verification.{is_forged, verify_payment, update_payment_status}
use meeo_server.Payments.Gateway.{Reply, Razorpay}
use meeo_server.Payments.Refund.{process_refund}
use meeo_server.Payments.Signatures.{verify_payment_authentic}
use meeo_server.Payments.Confirmation.{IsPaidFor, verify_payment_confirms}
use meeo_server.Payments.RefundOutcome.{IsGranted, process_refund_outcome}
use meeo_server.Payments.RefundBounds.{IsSettled, RefundRequest, refund_all, refund_all-IsSettled}
use meeo_server.Payments.Lifecycle.{
  verify_payment_twice, verify_payment_revives, manual_success_keeps_holds,
}
use meeo_server.Store.{Payment, is_success, find_first}
use meeo_server.Payments.Verification.{is_payment_of, record_payment_failure}
use meeo_server.Payments.Failure.{IsFailed, record_payment_failure_outcome}
use meeo_server.Samples.{
  payment_row, paid_row, order_row, cancelled_row, start, paid_state, cancelled_state,
  start-IsSound, plain_crypto, signed, unsigned,
}

genuine : is_forged plain_crypto (5 ∷ []) signed ≡ false
unfolding is_forged
genuine = refl

verify_payment_confirms_example :
    (s' : State lists) × (verify_payment lists plain_crypto (5 ∷ []) 60 signed start
      ≡ (ok (1, false), s'))
    × IsPaidFor lists 60 1 payment_row order_row start s'
verify_payment_confirms_example =
    verify_payment_confirms lists 60 1 payment_row order_row start plain_crypto (5 ∷ []) signed
      start-IsSound genuine refl refl refl

verify_payment_authentic_example :
    (unsigned.signature ≡ 5 ∷ 1 ∷ b'|' ∷ 2 ∷ [])
    ⊎ ((unsigned.signature ≢ 5 ∷ 1 ∷ b'|' ∷ 2 ∷ [])
        × (verify_payment lists plain_crypto (5 ∷ []) 60 unsigned start
            ≡ (err Error.bad_signature, start)))
verify_payment_authentic_example =
    verify_payment_authentic plain_crypto 5 [] unsigned lists 60 start

-- A second payment of order 4.
abbrev two_payments : State lists
two_payments = record start { payments = (1, payment_row) ∷ (2, payment_row) ∷ [] }

verify_payment_twice_example :
    (s' : State lists) × (verify_payment lists plain_crypto (5 ∷ []) 60 signed two_payments
      ≡ (ok (1, false), s'))
    × (((j : ℕ) × (verify_payment lists plain_crypto (5 ∷ []) 90 signed s' ≡ (ok (j, true), s')))
        ⊎ ((j : ℕ) × (q : Payment) × (j ≢ 1)
            × (lists.find Payment j two_payments.payments ≡ some q)
            × (q.order ≡ 4)
            × (is_success q.status ≡ false)
            × ((s2 : State lists) × (verify_payment lists plain_crypto (5 ∷ []) 90 signed s'
                  ≡ (ok (j, false), s2))
                × IsPaidFor lists 90 j q (with_status OrderStatus.confirmed order_row) s' s2)))
verify_payment_twice_example =
    verify_payment_twice lists 60 1 payment_row order_row two_payments plain_crypto (5 ∷ []) 90
      signed signed start-IsSound genuine genuine refl refl refl refl

verify_payment_revives_example :
    (is_valid_transition OrderStatus.cancelled OrderStatus.confirmed ≡ false)
    × (s' : State lists) × (verify_payment lists plain_crypto (5 ∷ []) 60 signed cancelled_state
        ≡ (ok (1, false), s'))
    × (lists.find Order 4 s'.orders ≡ some (record order_row { status = OrderStatus.confirmed }))
verify_payment_revives_example =
    verify_payment_revives lists 60 1 payment_row cancelled_row cancelled_state plain_crypto
      (5 ∷ []) signed start-IsSound genuine refl refl refl refl

manual_success_keeps_holds_example :
    (s' : State lists) × (update_payment_status lists 60 1 PaymentStatus.success none (some 8) start
      ≡ (ok (some (record paid_row { paid_at = some 60 })), s'))
    × (lists.find Order 4 s'.orders ≡ some (record order_row { status = OrderStatus.confirmed }))
    × (s'.inventory ≡ start.inventory)
    × (s'.reservations ≡ start.reservations)
manual_success_keeps_holds_example =
    manual_success_keeps_holds lists 60 1 none (some 8) payment_row order_row start refl refl refl

-- The gateway knows the payment of a good attempt, and refuses to refund it.
abbrev refusing : Razorpay
refusing = record {
  is_configured = true;
  text_of_payment = λ k. k ∷ [];
  refund_call = λ payment amount. Reply.answered false none;
  random = λ payment amount. amount;
}

abbrev attempted_state : State lists
attempted_state = record paid_state {
  attempts =
      (
        5,
        record {
          payment = 1;
          number = 1;
          status = AttemptStatus.success;
          completed_at = some 60;
          provider_payment = some (b'p' ∷ b'a' ∷ b'y' ∷ b'_' ∷ 7 ∷ []);
        },
      )
      ∷ [];
}

process_refund_outcome_example :
    ((true ≡ true)
      × (0 < 2000)
      × (2000 ≤ 5000)
      × ((s' : State lists) × IsGranted lists refusing
            (some 8)
            1
            (some 2000)
            paid_row
            attempted_state
            s'))
    ⊎ (((true ≡ false) ⊎ ((◌≡◌ {A = ℕ} 2000 0) ⊎ (5000 < 2000)))
        × ((e : Error) × (process_refund lists refusing
                (some 8)
                (some 1)
                (some 2000)
                attempted_state
              ≡ (err e, attempted_state))))
process_refund_outcome_example =
    process_refund_outcome lists refusing (some 8) 1 (some 2000) paid_row attempted_state refl

-- A part, too much, and the rest.
abbrev requests : List RefundRequest
requests =
    record { user = some 8; payment = some 1; amount = some 2000; razorpay = refusing }
    ∷ record { user = some 8; payment = some 1; amount = some 4000; razorpay = refusing }
    ∷ record { user = none; payment = some 1; amount = none; razorpay = refusing }
    ∷ []

refund_all-IsSettled_example : IsSettled lists (refund_all lists requests paid_state)
refund_all-IsSettled_example = refund_all-IsSettled lists requests paid_state (λ k. ground arith)

record_payment_failure_outcome_example :
    ((find_first lists (is_payment_of 4) start.payments ≡ none)
      × (record_payment_failure lists 60 4 start ≡ (err Error.payment_not_found, start)))
    ⊎ ((k : ℕ) × (p : Payment) × (find_first lists (is_payment_of 4) start.payments ≡ some (k, p))
        × (((is_success p.status ≡ true)
              × (record_payment_failure lists 60 4 start ≡ (ok (k, false), start)))
            ⊎ ((is_success p.status ≡ false)
                × ((s' : State lists) × (record_payment_failure lists 60 4 start
                      ≡ (ok (k, true), s'))
                    × IsFailed lists 60 k p start s'))))
record_payment_failure_outcome_example = record_payment_failure_outcome lists 60 4 start
