-- ===== src/Payments/Confirmation.antt =====
-- What a verified payment does to the payment, its order and its stock
-- (`paymentVerification.service.ts`).
use mathlib.Core.Option
use meeo_server.Base.{
  ℕ, ◌≡◌, refl, sym, ap, ◌∙◌, ◌⊎◌, inl, inr, Option, none, some, true, false, List, [], ◌∷◌, arith,
  ◌==◌, ==_refl, if◌then◌else◌, keep, find_in, Option-cases, Bool-cases,
}
use meeo_server.Base.Result.{ok}
use meeo_server.Orm.{Orm}
use meeo_server.Store.{
  Inventory, Reservation, OrderStatus, same_order_status, Order, Payment, is_success, Attempt,
  AttemptStatus, EventKind, HistoryEntry, OutboxEntry, TransactionEntry, TransactionKind,
  TransactionStatus, State, Error, find_first,
}
use meeo_server.Store.Rows.{find_first-found}
use meeo_server.Inventory.Holds.{commit}
use meeo_server.Inventory.OrderHolds.{is_held_for}
use meeo_server.Inventory.Balance.{IsSound}
use meeo_server.Inventory.Sweep.{units}
use meeo_server.Inventory.OrderStock.{holds_of, commit_order_reservations_lem}
use meeo_server.Orders.Transitions.{same_eq}
use meeo_server.Orders.Status.{with_status}
use meeo_server.Payments.Gateway.{Crypto}
use meeo_server.Payments.Verification.{
  is_payment_of, is_attempt_of, latest, key_of, Callback, is_forged, paid_in_full, finish_attempt,
  remove_cart, confirm_paid, verify_body, attempt_of, verify_found, verify_payment,
}

module _ (o : Orm) where
  -- The latest attempt of a list is one of its rows.
  latest-found :
      (l : List (ℕ × Attempt)) (k : ℕ) (a : Attempt)
      → latest l ≡ some (k, a)
      → (x : Attempt) × (find_in k l ≡ some x)
  latest-found [] k a e = cc
  latest-found ((j, b) ∷ l) k a e =
      go (Option-cases (latest l)) (Bool-cases (j == k)) (latest-found l k)
    where
      go :
          (latest l ≡ none) ⊎ ((x : ℕ × Attempt) × (latest l ≡ some x))
          → ((j == k) ≡ true) ⊎ ((j == k) ≡ false)
          → ((a' : Attempt) → latest l ≡ some (k, a') → (x : Attempt) × (find_in k l ≡ some x))
          → (x : Attempt) × (find_in k ((j, b) ∷ l) ≡ some x)
      go _ (inl same) rest = (b, rw same)
      go (inl last) (inr other) rest = absurd (ground (arith, ==_refl k))
      go (inr ((i, y), found)) (inr other) rest =
          let (x, here) = rest a (ground (arith, ==_refl k)) in (x, rw other here)

  pub finish_attempt_lem :
      (now k : ℕ) (status : AttemptStatus) (s : State o) (x : Option (ℕ × Attempt))
      → attempt_of o k s ≡ x
      → (p : o.Table Payment)
      → (t : o.Table Attempt) × (finish_attempt o now status x (record s { payments = p })
          ≡ (ok tt, record s { payments = p; attempts = t }))
  unfolding finish_attempt
  finish_attempt_lem now k status s none e p = (s.attempts, refl)
  finish_attempt_lem now k status s (some (j, a)) e p =
      let (x, found) = latest-found (o.find_many Attempt (is_attempt_of k) s.attempts) j a e in
      let y =
        standing (o.find Attempt j s.attempts)
          (sym (o.find_in-find_many Attempt (is_attempt_of k) j s.attempts) ∙ found) in
      (
        o.write Attempt j (record (y.0) { status = status; completed_at = some now }) s.attempts,
        ground (arith, y.1),
      )
    where
      standing :
          {x : Attempt} (y : Option Attempt)
          → keep (is_attempt_of k) y ≡ some x
          → (z : Attempt) × (y ≡ some z)
      standing none h = cc
      standing (some z) h = (z, refl)

  already_confirmed :
      (order : Order)
      → same_order_status order.status OrderStatus.confirmed ≡ true
      → order ≡ with_status OrderStatus.confirmed order
  already_confirmed order e = let e' = same_eq order.status OrderStatus.confirmed e in ground arith

  -- The order is CONFIRMED after part D, and only orders, their history and carts are written.
  confirm_paid_lem :
      (id : ℕ) (order : Order) (s : State o)
      → o.find Order id s.orders ≡ some order
      → (t : o.Table Order) × (h : List HistoryEntry) × (c : o.Table (Unit {0})) × (confirm_paid o
            id
            (some order)
            s
          ≡ (ok tt, record s { orders = t; history = h; carts = c }))
        × (o.find Order id t ≡ some (with_status OrderStatus.confirmed order))
  unfolding confirm_paid remove_cart
  confirm_paid_lem id order s here =
      go (Bool-cases (same_order_status order.status OrderStatus.confirmed)) order.cart refl
    where
      entry : HistoryEntry
      entry = record {
        order = id;
        previous = order.status;
        next = OrderStatus.confirmed;
        changed_by = none;
      }

      Goal : Type 0
      Goal =
          (t : o.Table Order) × (h : List HistoryEntry) × (c : o.Table (Unit {0})) × (confirm_paid o
              id (some order) s
            ≡ (ok tt, record s { orders = t; history = h; carts = c }))
          × (o.find Order id t ≡ some (with_status OrderStatus.confirmed order))

      go :
          (same_order_status order.status OrderStatus.confirmed ≡ true)
            ⊎ (same_order_status order.status OrderStatus.confirmed ≡ false)
          → (c : Option ℕ) → order.cart ≡ c
          → Goal
      go (inl same) c e = (
        s.orders,
        s.history,
        s.carts,
        ground arith,
        here ∙ ap some (already_confirmed order same),
      )
      go (inr other) none e = (
        o.write Order id (with_status OrderStatus.confirmed order) s.orders,
        entry ∷ s.history,
        s.carts,
        ground arith,
        ground (arith, o.find-write Order id id (with_status OrderStatus.confirmed order) s.orders),
      )
      go (inr other) (some c) e = (
        o.write Order id (with_status OrderStatus.confirmed order) s.orders,
        entry ∷ s.history,
        o.erase (Unit {0}) c s.carts,
        ground arith,
        ground (arith, o.find-write Order id id (with_status OrderStatus.confirmed order) s.orders),
      )

  -- What a verification leaves: the payment is SUCCESS and paid in full at the time of the call, its
  -- order is CONFIRMED and otherwise as before, the state is sound, and the order's active holds
  -- have become sales: none is left, and their units are off the reserved counts.
  pub record IsPaidFor (now k : ℕ) (p : Payment) (order : Order) (s s' : State o) : Type 0 where
    pub payments :
        (j : ℕ)
        → o.find Payment j s'.payments
          ≡ (if k == j then some (paid_in_full now p) else o.find Payment j s.payments)
    pub confirmed : o.find Order p.order s'.orders ≡ some (with_status OrderStatus.confirmed order)
    pub sound : IsSound o s'
    pub no_hold : (j : ℕ) → keep (is_held_for p.order) (o.find Reservation j s'.reservations) ≡ none
    pub stock :
        (v : ℕ)
        → o.find Inventory v s'.inventory
          ≡ Option.map (commit (units v (holds_of o p.order s))) (o.find Inventory v s.inventory)

  module _ (now k : ℕ) (p : Payment) (order : Order) (s : State o) where
    verify_body_lem :
        IsSound o s
        → o.find Payment k s.payments ≡ some p
        → o.find Order p.order s.orders ≡ some order
        → (s' : State o) × (verify_body o now (k, p) (attempt_of o k s) (some order) s
            ≡ (ok tt, s'))
          × IsPaidFor now k p order s s'
    unfolding verify_body
    verify_body_lem c here there =
        let payments = o.write Payment k (paid_in_full now p) s.payments in
        let (attempts, e1) =
          finish_attempt_lem now k AttemptStatus.success s (attempt_of o k s) refl payments in
        let entry : TransactionEntry = record {
          payment = k;
          attempt = key_of (attempt_of o k s);
          kind = TransactionKind.charge;
          status = TransactionStatus.success;
          amount = p.amount;
        } in
        let s2 : State o = record s {
          payments = payments;
          attempts = attempts;
          transactions = entry ∷ s.transactions;
        } in
        let (orders, history, carts, e2, confirmed) = confirm_paid_lem p.order order s2 there in
        let s3 : State o = record s2 { orders = orders; history = history; carts = carts } in
        let (s4, e3, after, left) = commit_order_reservations_lem o p.order s3 c in
        let event : OutboxEntry = record {
          kind = EventKind.order_paid;
          aggregate = k;
          order = p.order;
          amount = p.amount;
        } in
        (
          record s4 { outbox = event ∷ s4.outbox },
          ground arith,
          record {
            payments = λ j.
                ground
                  (arith, after.rest, o.find-write Payment j k (paid_in_full now p) s.payments);
            confirmed = ground (arith, after.rest);
            sound = after.sound;
            no_hold = left;
            stock = after.stock;
          },
        )

    -- In a sound state, an authentic callback for a payment that is not yet SUCCESS, whose order is
    -- there, is verified: the call returns the payment as newly verified, and leaves what
    -- `IsPaidFor` says, whatever the status of the payment and of the order were.
    pub verify_payment_confirms :
        (crypto : Crypto) (secret : List ℕ) (input : Callback)
        → IsSound o s
        → is_forged crypto secret input ≡ false
        → find_first o (is_payment_of input.order) s.payments ≡ some (k, p)
        → is_success p.status ≡ false
        → o.find Order p.order s.orders ≡ some order
        → (s' : State o) × (verify_payment o crypto secret now input s ≡ (ok (k, false), s'))
          × IsPaidFor now k p order s s'
    unfolding verify_payment verify_found
    verify_payment_confirms crypto secret input c genuine found open_payment there =
        let (here, _) = find_first-found o (is_payment_of input.order) s.payments k p found in
        let (s', e, after) = verify_body_lem c here there in
        (
          s',
          ground (
            arith,
            o.transaction-settle (State o) Error (Unit {0})
                (verify_body o now (k, p) (attempt_of o k s) (some order)) s,
          ),
          after,
        )
