-- ===== src/Payments/Failure.antt =====
-- What `recordPaymentFailure` (`paymentVerification.service.ts`) returns and leaves.
use meeo_server.Base.{
  ℕ, ◌≡◌, refl, ◌⊎◌, inl, inr, none, some, true, false, ◌∷◌, arith, ◌==◌, if◌then◌else◌,
  Option-cases, Bool-cases,
}
use meeo_server.Base.Result.{ok, err}
use meeo_server.Orm.{Orm}
use meeo_server.Store.{
  Payment, PaymentStatus, is_success, AttemptStatus, TransactionEntry, TransactionKind,
  TransactionStatus, OutboxEntry, EventKind, State, Error, find_first,
}
use meeo_server.Store.Rows.{find_first-found}
use meeo_server.Payments.Verification.{
  is_payment_of, key_of, failure_body, fail_found, record_payment_failure, attempt_of,
}
use meeo_server.Payments.Confirmation.{finish_attempt_lem}

abbrev pub payment_failed_at : ℕ → Payment → Payment
payment_failed_at now p = record p { status = PaymentStatus.failed; failed_at = some now }

module _ (o : Orm) where
  -- What a recorded failure has done: the payment is FAILED at the time of the call and otherwise as
  -- before, as are all other payments; one failed charge is in the ledger; and the order, the stock
  -- and the reservations are untouched, so that the payment can be tried again.
  pub record IsFailed (now k : ℕ) (p : Payment) (s s' : State o) : Type 0 where
    pub payments :
        (j : ℕ)
        → o.find Payment j s'.payments
          ≡ (if k == j then some (payment_failed_at now p) else o.find Payment j s.payments)
    pub transactions :
        s'.transactions
        ≡ record {
          payment = k;
          attempt = key_of (attempt_of o k s);
          kind = TransactionKind.charge;
          status = TransactionStatus.failed;
          amount = p.amount;
        }
          ∷ s.transactions
    pub orders : s'.orders ≡ s.orders
    pub inventory : s'.inventory ≡ s.inventory
    pub reservations : s'.reservations ≡ s.reservations

  fail_found_lem :
      (now k : ℕ) (p : Payment) (s : State o)
      → o.find Payment k s.payments ≡ some p
      → (s' : State o) × (fail_found o now (k, p) s ≡ (ok (k, true), s')) × IsFailed now k p s s'
  unfolding fail_found failure_body
  fail_found_lem now k p s here =
      let payments = o.write Payment k (payment_failed_at now p) s.payments in
      let (attempts, e) =
        finish_attempt_lem o now k AttemptStatus.failed s (attempt_of o k s) refl payments in
      let entry : TransactionEntry = record {
        payment = k;
        attempt = key_of (attempt_of o k s);
        kind = TransactionKind.charge;
        status = TransactionStatus.failed;
        amount = p.amount;
      } in
      let event : OutboxEntry = record {
        kind = EventKind.payment_failed;
        aggregate = k;
        order = p.order;
        amount = 0;
      } in
      (
        record s {
          payments = payments;
          attempts = attempts;
          transactions = entry ∷ s.transactions;
          outbox = event ∷ s.outbox;
        },
        ground (
          arith,
          o.transaction-settle (State o) Error (Unit {0})
              (failure_body o now (k, p) (attempt_of o k s)) s,
        ),
        record {
          payments = λ j. o.find-write Payment j k (payment_failed_at now p) s.payments;
          transactions = refl;
          orders = refl;
          inventory = refl;
          reservations = refl;
        },
      )

  -- Recording a failed payment does one of three things. Without a payment of the order it throws
  -- `payment_not_found`, and for a payment that is SUCCESS it answers that nothing was recorded; both
  -- leave the state as it was. Any other payment is recorded as failed, and `IsFailed` holds of the
  -- state that is left.
  pub record_payment_failure_outcome :
      (now order : ℕ) (s : State o)
      → ((find_first o (is_payment_of order) s.payments ≡ none)
          × (record_payment_failure o now order s ≡ (err Error.payment_not_found, s)))
        ⊎ ((k : ℕ) × (p : Payment) × (find_first o (is_payment_of order) s.payments ≡ some (k, p))
            × (((is_success p.status ≡ true)
                  × (record_payment_failure o now order s ≡ (ok (k, false), s)))
                ⊎ ((is_success p.status ≡ false)
                    × ((s' : State o) × (record_payment_failure o now order s ≡ (ok (k, true), s'))
                        × IsFailed now k p s s'))))
  unfolding record_payment_failure
  record_payment_failure_outcome now order s =
      elim (Option-cases (find_first o (is_payment_of order) s.payments)) [
        | inl e ↦ inl (e, ground arith)
        | inr ((k, p), e) ↦ elim (Bool-cases (is_success p.status)) [
          | inl done ↦ inr (k, p, e, inl (done, ground arith))
          | inr open_payment ↦
              let (here, _) = find_first-found o (is_payment_of order) s.payments k p e in
              let (s', e', after) = fail_found_lem now k p s here in
              inr (k, p, e, inr (open_payment, (s', ground arith, after)))
        ]
      ]
