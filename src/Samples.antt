-- ===== src/Samples.antt =====
-- Concrete states of the shop, in the tables of `Tables`, at which the theorems are applied.
use meeo_server.Base.{
  ℕ, ◌≡◌, refl, ◌↔◌, none, some, Bool, true, false, List, [], ◌∷◌, ◌++◌, ◌&&◌, arith, ◌==◌, ==_iff,
}
use meeo_server.Base.Int.{pos}
use meeo_server.Tables.{lists}
use meeo_server.Store.{
  Inventory, Reservation, ReservationStatus, Order, OrderStatus, Payment, PaymentStatus, Provider,
  State,
}
use meeo_server.Inventory.Balance.{IsSound}
use meeo_server.Payments.Gateway.{Crypto}
use meeo_server.Payments.Verification.{Callback}

abbrev pub stock_row : Inventory
stock_row = record { available = pos 10; reserved = pos 3; reorder_level = some 5 }

abbrev pub hold_row : Reservation
hold_row = record {
  variant = 7;
  order = some 4;
  quantity = 3;
  status = ReservationStatus.active;
  expires_at = 1000;
}

abbrev pub released_row : Reservation
released_row = record hold_row { status = ReservationStatus.released }

abbrev pub order_row : Order
order_row = record {
  user = some 9;
  status = OrderStatus.payment_pending;
  grand_total = 5000;
  cart = some 2;
  created_at = 0;
}

abbrev pub cancelled_row : Order
cancelled_row = record order_row { status = OrderStatus.cancelled }

abbrev pub payment_row : Payment
payment_row = record {
  order = 4;
  provider = Provider.razorpay;
  status = PaymentStatus.pending;
  amount = 5000;
  paid = 0;
  refunded = 0;
  paid_at = none;
  failed_at = none;
}

abbrev pub paid_row : Payment
paid_row = record payment_row { status = PaymentStatus.success; paid = 5000 }

-- Order 4 waits for its payment 1, and holds 3 units of variant 7.
abbrev pub start : State lists
start = record {
  variants = (7, tt) ∷ [];
  inventory = (7, stock_row) ∷ [];
  reservations = (1, hold_row) ∷ [];
  orders = (4, order_row) ∷ [];
  payments = (1, payment_row) ∷ [];
  attempts = [];
  carts = (2, tt) ∷ [];
  ledger = [];
  history = [];
  transactions = [];
  refunds = [];
  outbox = [];
}

-- The payment of order 4 has been made.
abbrev pub paid_state : State lists
paid_state = record start { payments = (1, paid_row) ∷ [] }

-- Order 4 has been cancelled.
abbrev pub cancelled_state : State lists
cancelled_state = record start { orders = (4, cancelled_row) ∷ [] }

-- The hold of order 4 has been released.
abbrev pub released_state : State lists
released_state = record start {
  inventory = (7, record { available = pos 13; reserved = pos 0; reorder_level = some 5 }) ∷ [];
  reservations = (1, released_row) ∷ [];
}

pub start-IsSound : IsSound lists start
start-IsSound = record { balanced = λ v. ground arith; positive = λ k. ground arith }

abbrev pub same_text : List ℕ → List ℕ → Bool
same_text [] [] = true
same_text [] (b ∷ t) = false
same_text (a ∷ s) [] = false
same_text (a ∷ s) (b ∷ t) = (a == b) && same_text s t

pub same_text_iff : (s t : List ℕ) → (same_text s t ≡ true) ↔ (s ≡ t)
same_text_iff [] [] = (λ h. refl, λ h. refl)
same_text_iff [] (b ∷ t) = (λ h. cc, λ h. cc)
same_text_iff (a ∷ s) [] = (λ h. cc, λ h. cc)
same_text_iff (a ∷ s) (b ∷ t) = ground (arith, same_text_iff s t, ==_iff a b)

-- A code that joins the secret and the message.
abbrev pub plain_crypto : Crypto
plain_crypto = record {
  hmac_sha256 = λ secret message. secret ++ message;
  timing_safe_equal = same_text;
  timing_safe_equal_iff = λ a b h. same_text_iff a b;
}

-- A callback for order 4, signed under the secret `5`.
abbrev pub signed : Callback
signed = record {
  order = 4;
  gateway_order = 1 ∷ [];
  gateway_payment = 2 ∷ [];
  signature = 5 ∷ 1 ∷ b'|' ∷ 2 ∷ [];
}

-- The same callback with another signature.
abbrev pub unsigned : Callback
unsigned = record signed { signature = 0 ∷ [] }
