-- ===== src/Payments/Signatures.antt =====
-- The signature check of `verifyPayment` (`paymentVerification.service.ts`).
use meeo_server.Base.{
  ℕ, ◌≡◌, ◌≢◌, ◌↔◌, ◌⊎◌, inl, inr, true, false, List, ◌∷◌, ◌++◌, arith, ◌==◌, length, ap,
  Bool-cases, ==_iff,
}
use meeo_server.Base.Result.{err}
use meeo_server.Orm.{Orm}
use meeo_server.Store.{State, Error}
use meeo_server.Payments.Gateway.{Crypto}
use meeo_server.Payments.Verification.{Callback, is_forged, verify_payment}

module _ (c : Crypto) (b : ℕ) (secret : List ℕ) (input : Callback) where
  -- What the gateway signs: its order, a bar, and its payment.
  abbrev pub expected_signature : List ℕ
  expected_signature =
      c.hmac_sha256 (b ∷ secret) (input.gateway_order ++ (b'|' ∷ input.gateway_payment))

  is_forged_iff : (is_forged c (b ∷ secret) input ≡ false) ↔ (input.signature ≡ expected_signature)
  unfolding is_forged
  is_forged_iff = (
    λ h. go (Bool-cases (length input.signature == length expected_signature)) h,
    λ e.
        let same : length input.signature ≡ length expected_signature = ap length e in
        ground (
          arith,
          c.timing_safe_equal_iff input.signature expected_signature same,
          ==_iff (length input.signature) (length expected_signature),
        ),
  )
    where
      go :
          ((length input.signature == length expected_signature) ≡ true)
            ⊎ ((length input.signature == length expected_signature) ≡ false)
          → is_forged c (b ∷ secret) input ≡ false
          → input.signature ≡ expected_signature
      go (inl same) h =
          (c.timing_safe_equal_iff input.signature expected_signature
              ((==_iff (length input.signature) (length expected_signature)).0 same)).0
            (ground arith)
      go (inr other) h = ground arith

  -- With a configured secret, either the callback's signature is the HMAC of the gateway's order and
  -- payment, or verification refuses it with `bad_signature` and leaves the state as it was.
  pub verify_payment_authentic :
      (o : Orm) (now : ℕ) (s : State o)
      → (input.signature ≡ expected_signature)
        ⊎ ((input.signature ≢ expected_signature)
            × (verify_payment o c (b ∷ secret) now input s ≡ (err Error.bad_signature, s)))
  unfolding verify_payment
  verify_payment_authentic o now s = elim (Bool-cases (is_forged c (b ∷ secret) input)) [
    | inr genuine ↦ inl (is_forged_iff.0 genuine)
    | inl forged ↦ inr (λ e. differs forged (is_forged_iff.1 e), ground arith)
  ]
    where
      differs : is_forged c (b ∷ secret) input ≡ true → ¬ (is_forged c (b ∷ secret) input ≡ false)
      differs h k = cc
