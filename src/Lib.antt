-- ===== src/Lib.antt =====
-- A model of the commerce core of the meeo server, a TypeScript backend over Prisma, and the
-- theorems that hold of it: stock and its reservations, the lifecycle of orders, payments and
-- refunds, coupons and promotions, tax, the tree of categories, idempotency keys, and the delivery
-- and the consumption of outbox events.
--
-- The parts and their files:
--   * Base: tests, lists and signed integers over the native numbers, results of code that throws.
--   * Orm: the database client, a parameter. Tables keep rows under keys; the laws say what reads
--     return after writes, and that a transaction that throws leaves nothing. Tables implements it.
--   * Store: the rows of `prisma/schema`, the errors of `src/common/errors/app-error.ts` with their
--     HTTP statuses, the state that services share, and the client's calls on it.
--   * Inventory: `src/modules/inventory/services`. Holds has the writes by which a reservation is
--     opened and closed, Reservations `reservation.service.ts` (reserveStock, confirmReservation,
--     releaseReservation, expireStaleReservations), Levels `stock.service.ts` (getInventory,
--     addStock, removeStock, adjustStock), OrderHolds
--     `src/modules/orders/services/orderInventory.service.ts` and the loop by which payment and
--     fulfilment turn an order's holds into sales. Balance, Closing, Branches, Soundness,
--     LevelStates, Sweep and Requests prove the balance of stock; OrderStock, Expiry and Outcomes
--     what the operations return and leave. Pool is what the stock of a variant promises, free and
--     held units, and Chains is which acts on it each request allows; Refinement, Simulation,
--     LevelRuns, ReservationRuns and Realisation relate the services to it.
--   * Orders: `src/modules/orders/services`. Transitions is ALLOWED_ORDER_TRANSITIONS with its
--     check, Status the rest of `orderStatus.service.ts` (updateOrderStatus, cancelOrder),
--     Fulfillment `orderFulfillment.service.ts`; Updates, Outcomes, Cancelling and Confirming prove
--     what a status update, a cancellation and a confirmation leave. Idempotency is
--     `idempotency.service.ts` (resolveOrLockKey, finalizeKey, releaseKey) and its use by
--     createOrder, whose creation of an order is a parameter; Replay and Once relate checkouts to a
--     memory of answers, and Recovery is about a key that a crash has left in progress.
--   * Payments: `src/modules/payments/services`. Verification is `paymentVerification.service.ts`
--     (verifyPayment, recordPaymentFailure, updatePaymentStatus), Refund `paymentRefund.service.ts`
--     (processRefund), Provider createRefund of `razorpayPayment.provider.ts`, Gateway the HMAC and
--     Razorpay's API, as parameters. Signatures, Confirmation, Failure, Lifecycle, RefundOutcome
--     and RefundBounds prove their effects.
--   * Coupons: Preview is `src/modules/coupons/services/couponCalculation.service.ts`, Checkout
--     `src/modules/orders/services/orderCoupon.service.ts`, Rules what both write out alike.
--   * Promotions: `src/modules/promotions/services/promotionEngine.service.ts`. Eligibility is
--     checkEligibility and getMatchingItems, Engine calculateDiscount and evaluate; Loop is a rule
--     of induction for evaluate's loop, Discounts, Stacking and Acceptance prove its amounts and
--     choices.
--   * Tax: Gst is `src/modules/tax/services/gstEngine.service.ts` (allocateDiscounts,
--     calculateOrderGst); Shares proves the split of a discount, Totals the grand total.
--   * Catalog: `src/modules/catalog`. Slugs is `utils/slug.util.ts` with the pattern of slugs, Rows
--     the rows, inputs and `catalog-auth.helper.ts`, Categories createCategory, updateCategory,
--     deleteCategory and isDescendantOf; Ancestors, Forest, Updates, Checks, Deletion and Requests
--     prove that the categories stay a forest, SlugShape what a slug is.
--   * Outbox: `src/modules/outbox/services`. Retry is `outboxRetry.service.ts` (the backoff and
--     unlockStaleEvents), Publisher `outboxPublisher.service.ts` (createOutboxEvent,
--     claimBatchForPublishing, pollAndPublishBatch, retryFailedEvent), with the two queues and
--     `Math.random()` as parameters; Delivery and Attempts prove what deliveries of an event do,
--     Rules, Batches and Order that a poll never throws and that locks, attempts and statuses
--     agree. Consumption is runWithConsumerIdempotency of `processedEvent.service.ts`, with
--     handlers as parameters; Records and Once prove that a handler returns once for an event.
--   * Samples and the modules named Tests: concrete states at which the theorems are applied.
--
-- How code becomes definitions. A service's method is a function from a state to a result and a
-- state, `$transaction` the parameter of that name, a loop over rows a recursion over a list, so
-- that no fuel is needed. The one loop on fuel is that of isDescendantOf, which has two rounds more
-- than there are categories: enough, since it visits no category twice. A handler is modelled
-- whole: its reads, guards and writes in their order. Requests run one after another: races between
-- transactions are not modelled. Quantities in stock are signed integers; ids and times
-- (milliseconds) are numbers, and a call's time is an argument. Amounts are numbers of hundredths,
-- as the columns of type `Decimal(12, 2)` hold them, so the roundings to two decimals of the source
-- change nothing but a percentage, which is rounded half up from the exact value, where the source
-- rounds a binary fraction; so are shares of a discount, and tax, with rates in hundredths of a
-- percent. A text that is modelled is a list of UTF-16 code units. For the services that write it,
-- an event of the outbox is its kind, its aggregate, its order and its amount; for the publisher it
-- is its status, locks and attempts.
--
-- Not modelled: the texts of notes, reasons and messages; the relations that responses add; paging;
-- the creation of orders and of payments, webhooks, carts, tax rules and the matching of a state's name, the
-- rest of the catalog; caches and audit entries; accounts, search, notifications and reports;
-- controllers, routes, workers and the application shell, which are glue around the services.
pub mod Base
pub mod Orm
pub mod Tables
pub mod Tax
pub mod Store
pub mod Inventory
pub mod Orders
pub mod Payments
pub mod Promotions
pub mod Samples
pub mod Catalog
pub mod Coupons
pub mod Outbox
