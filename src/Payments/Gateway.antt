-- ===== src/Payments/Gateway.antt =====
-- What the payment services take from outside the repository: Node's `crypto`, and the environment,
-- Razorpay's API and the random numbers that the refund call of `razorpayPayment.provider.ts` reads.
use meeo_server.Base.{ℕ, ◌≡◌, ◌↔◌, Bool, true, Option, List, length}

-- A signature is compared byte by byte, which needs texts of one length.
pub record Crypto : Type 0 where
  pub hmac_sha256 : List ℕ → List ℕ → List ℕ
  pub timing_safe_equal : List ℕ → List ℕ → Bool
  pub timing_safe_equal_iff :
      (a b : List ℕ) → length a ≡ length b → (timing_safe_equal a b ≡ true) ↔ (a ≡ b)

-- How the API answers: the call or its parsing throws, or there is `response.ok` and perhaps `data.id`.
pub data Reply : Type 0 where
  unreachable : Reply
  answered : Bool → Option ℕ → Reply

-- `is_configured`: both keys are set, and it is not a test run. A payment's identifier is a text. The
-- call and the random digits may differ for each text and amount.
pub record Razorpay : Type 0 where
  pub is_configured : Bool
  pub text_of_payment : ℕ → List ℕ
  pub refund_call : List ℕ → ℕ → Reply
  pub random : List ℕ → ℕ → ℕ
