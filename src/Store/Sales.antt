-- ===== src/Store/Sales.antt =====
-- Rows of the order and payment tables: `prisma/schema/Orders`, `prisma/schema/Payments` and
-- `prisma/schema/Infrastructure`. Amounts are in hundredths of the currency's unit, as the columns
-- of type `Decimal(12, 2)` hold them; times are in milliseconds.
use meeo_server.Base.{ℕ, Bool, true, false, Option, List, ◌==◌}

pub data OrderStatus : Type 0 where
  pending payment_pending confirmed processing shipped delivered : OrderStatus
  cancelled expired refunded : OrderStatus

-- A number for each status, by which two statuses are compared.
abbrev pub order_rank : OrderStatus → ℕ
order_rank OrderStatus.pending = 0
order_rank OrderStatus.payment_pending = 1
order_rank OrderStatus.confirmed = 2
order_rank OrderStatus.processing = 3
order_rank OrderStatus.shipped = 4
order_rank OrderStatus.delivered = 5
order_rank OrderStatus.cancelled = 6
order_rank OrderStatus.expired = 7
order_rank OrderStatus.refunded = 8

abbrev pub same_order_status : OrderStatus → OrderStatus → Bool
same_order_status a b = order_rank a == order_rank b

pub record Order : Type 0 where
  pub user : Option ℕ
  pub status : OrderStatus
  pub grand_total : ℕ
  pub cart : Option ℕ
  pub created_at : ℕ

-- A row of `OrderStatusHistory`, without its reason.
pub record HistoryEntry : Type 0 where
  pub order : ℕ
  pub previous : OrderStatus
  pub next : OrderStatus
  pub changed_by : Option ℕ

pub data PaymentStatus : Type 0 where
  pending processing requires_action success failed cancelled : PaymentStatus
  partially_refunded refunded paid : PaymentStatus

abbrev pub is_success : PaymentStatus → Bool
is_success PaymentStatus.success = true
is_success _ = false

abbrev pub is_payment_pending : PaymentStatus → Bool
is_payment_pending PaymentStatus.pending = true
is_payment_pending _ = false

pub data Provider : Type 0 where
  cod razorpay : Provider
  other : ℕ → Provider

abbrev pub is_cod : Provider → Bool
is_cod Provider.cod = true
is_cod _ = false

pub record Payment : Type 0 where
  pub order : ℕ
  pub provider : Provider
  pub status : PaymentStatus
  pub amount : ℕ
  pub paid : ℕ
  pub refunded : ℕ
  pub paid_at : Option ℕ
  pub failed_at : Option ℕ

pub data AttemptStatus : Type 0 where
  pending processing success failed cancelled : AttemptStatus

abbrev pub is_attempt_success : AttemptStatus → Bool
is_attempt_success AttemptStatus.success = true
is_attempt_success _ = false

pub record Attempt : Type 0 where
  pub payment : ℕ
  pub number : ℕ
  pub status : AttemptStatus
  pub completed_at : Option ℕ
  pub provider_payment : Option (List ℕ)

pub data TransactionKind : Type 0 where
  charge refund : TransactionKind

pub data TransactionStatus : Type 0 where
  pending processing success failed : TransactionStatus

-- A row of `PaymentTransaction`, without the provider's identifiers and messages.
pub record TransactionEntry : Type 0 where
  pub payment : ℕ
  pub attempt : Option ℕ
  pub kind : TransactionKind
  pub status : TransactionStatus
  pub amount : ℕ

-- The number of a refund: the one that the gateway issued, or `rfnd_` and random digits.
pub data RefundId : Type 0 where
  issued sandbox : ℕ → RefundId

-- A row of `Refund`.
pub record RefundEntry : Type 0 where
  pub payment : ℕ
  pub amount : ℕ
  pub requested_by : Option ℕ
  pub provider_refund : RefundId

pub data EventKind : Type 0 where
  order_moved : OrderStatus → EventKind
  order_paid payment_failed payment_refunded payment_partially_refunded : EventKind

-- A new row of `OutboxEvent`: its type, its aggregate, and the order and the amount of its payload.
pub record OutboxEntry : Type 0 where
  pub kind : EventKind
  pub aggregate : ℕ
  pub order : ℕ
  pub amount : ℕ
