-- ===== src/Payments/Provider.antt =====
-- `createRefund` of `src/modules/payments/providers/razorpayPayment.provider.ts`. Its status is always
-- SUCCESS, so that the number of the refund stands for the result.
use meeo_server.Base.{ℕ, Bool, true, false, ◌&&◌, none, some, List, [], ◌∷◌, ◌==◌}
use meeo_server.Store.{RefundId}
use meeo_server.Payments.Gateway.{Reply, Razorpay}

-- `startsWith`
unfoldable pub starts_with : List ℕ → List ℕ → Bool
starts_with [] text = true
starts_with (a ∷ p) [] = false
starts_with (a ∷ p) (b ∷ text) = a == b && starts_with p text

-- `"pay_"`
abbrev pub payment_prefix : List ℕ
payment_prefix = b'p' ∷ b'a' ∷ b'y' ∷ b'_' ∷ []

-- What an answer gives, `fallback` if the gateway has not issued a number.
abbrev pub number_in : Reply → RefundId → RefundId
number_in Reply.unreachable fallback = fallback
number_in (Reply.answered false x) fallback = fallback
number_in (Reply.answered true none) fallback = fallback
number_in (Reply.answered true (some id)) fallback = RefundId.issued id

unfoldable pub create_refund : Razorpay → List ℕ → ℕ → RefundId
create_refund g payment amount =
    let fallback = RefundId.sandbox (g.random payment amount) in
    elim (g.is_configured && starts_with payment_prefix payment) [
      | true ↦ number_in (g.refund_call payment amount) fallback
      | false ↦ fallback
    ]
