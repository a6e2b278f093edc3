-- ===== src/Payments/RefundBounds.antt =====
-- Refunds never exceed what was paid (`paymentRefund.service.ts`).
use meeo_server.Base.{
  ℕ, ◌≤◌, ◌≡◌, sym, subst, ◌⊎◌, inl, inr, Option, none, some, List, [], ◌∷◌, arith, ◌==◌, ==_refl,
  if◌then◌else◌, Option-cases, sum_by,
}
use meeo_server.Base.Result.{err}
use meeo_server.Orm.{Orm}
use meeo_server.Store.{Payment, RefundEntry, RefundId, State, Error}
use meeo_server.Payments.Gateway.{Razorpay}
use meeo_server.Payments.Verification.{given_or}
use meeo_server.Payments.Refund.{process_refund}
use meeo_server.Payments.RefundOutcome.{balance, IsRefunded, process_refund_outcome}

-- The amount that the refunds of a list give back on a payment.
abbrev pub refunded_by : ℕ → List RefundEntry → ℕ
refunded_by k l = sum_by (λ e. if e.payment == k then e.amount else 0) l

-- The refunds made of a payment are those that its row counts, and are not more than was paid.
abbrev pub IsAccounted : Option Payment → ℕ → Type 0
IsAccounted none total = Unit
IsAccounted (some p) total = (p.refunded ≡ total) × (p.refunded ≤ p.paid)

-- A request for a refund: who asks, of which payment, how much, and how the gateway answers.
pub record RefundRequest : Type 0 where
  pub user : Option ℕ
  pub payment : Option ℕ
  pub amount : Option ℕ
  pub razorpay : Razorpay

module _ (o : Orm) where
  abbrev pub IsSettled : State o → Type 0
  IsSettled s = (k : ℕ) → IsAccounted (o.find Payment k s.payments) (refunded_by k s.refunds)

  pub refund_all : List RefundRequest → State o → State o
  refund_all [] s = s
  refund_all (r ∷ rs) s = refund_all rs (process_refund o r.razorpay r.user r.payment r.amount s).1

  IsRefunded-IsSettled :
      (amount : ℕ) (user : Option ℕ) (id : RefundId) (k : ℕ) (p : Payment) (s s' : State o)
      → o.find Payment k s.payments ≡ some p
      → amount ≤ balance p
      → IsRefunded o amount user id k p s s'
      → IsSettled s
      → IsSettled s'
  IsRefunded-IsSettled amount user id k p s s' here within after h j =
      rw after.refunds (ground (arith, after.payments j, h j, ==_refl k))

  process_refund-IsSettled :
      (razorpay : Razorpay) (user payment amount : Option ℕ) (s : State o)
      → IsSettled s
      → IsSettled (process_refund o razorpay user payment amount s).1
  unfolding process_refund
  process_refund-IsSettled razorpay user none amount s h = h
  process_refund-IsSettled razorpay user (some k) amount s h =
      go (Option-cases (o.find Payment k s.payments))
    where
      go :
          (o.find Payment k s.payments ≡ none)
            ⊎ ((p : Payment) × (o.find Payment k s.payments ≡ some p))
          → IsSettled (process_refund o razorpay user (some k) amount s).1
      go (inl e) =
          let same : process_refund o razorpay user (some k) amount s
              ≡ (err Error.payment_not_found, s) =
            ground arith in
          subst (λ r. IsSettled r.1) (sym same) h
      go (inr (p, e)) = elim (process_refund_outcome o razorpay user k amount p s e) [
        | inl (r, positive, within, (s', (done, (id, _, after)))) ↦
            subst (λ r'. IsSettled r'.1) (sym done)
              (IsRefunded-IsSettled (given_or amount (balance p)) user id k p s s' e within after h)
        | inr (why, (x, refused)) ↦ subst (λ r'. IsSettled r'.1) (sym refused) h
      ]

  -- Whatever refunds are asked for, and whatever the gateway answers: if at the start
  -- every payment's refunded column is the sum of the refunds made of it and at most what was paid,
  -- then so it is at the end. So the refunds of a payment never exceed what was paid.
  pub refund_all-IsSettled :
      (rs : List RefundRequest) (s : State o) → IsSettled s → IsSettled (refund_all rs s)
  unfolding refund_all
  refund_all-IsSettled [] s h = h
  refund_all-IsSettled (r ∷ rs) s h =
      refund_all-IsSettled rs (process_refund o r.razorpay r.user r.payment r.amount s).1
        (process_refund-IsSettled r.razorpay r.user r.payment r.amount s h)
