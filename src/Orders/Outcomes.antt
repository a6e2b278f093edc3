-- ===== src/Orders/Outcomes.antt =====
-- What `updateOrderStatus` (`orderStatus.service.ts`) returns and leaves.
use meeo_server.Base.{
  ℕ, ◌≡◌, refl, sym, subst, ◌⊎◌, inl, inr, Option, none, some, Bool, true, false, List, ◌∷◌, arith,
  ◌==◌, ==_refl, if◌then◌else◌, Option-cases, Bool-cases,
}
use meeo_server.Base.Result.{ok, err}
use meeo_server.Orm.{Orm}
use meeo_server.Store.{
  Inventory, OrderStatus, same_order_status, Order, HistoryEntry, OutboxEntry, Payment, EventKind,
  State, Error, when,
}
use mathlib.Core.Option
use meeo_server.Inventory.Holds.{give_back}
use meeo_server.Inventory.Balance.{IsSound}
use meeo_server.Inventory.Sweep.{units}
use meeo_server.Inventory.OrderStock.{holds_of}
use meeo_server.Orders.Transitions.{is_valid_transition}
use meeo_server.Orders.Status.{
  is_pending_of, with_status, ends_unsold, resolve_cod, end_unsold, status_body, move_order,
  update_order_status,
}
use meeo_server.Orders.Updates.{
  failed_at, IsWoundUp, IsCollected, SameSales, OnlyPaid, end_unsold_lem, resolve_cod_lem,
}

invalid-differs :
    (a b : OrderStatus) → is_valid_transition a b ≡ false → same_order_status a b ≡ false
unfolding is_valid_transition
invalid-differs a b h = ground arith

-- A delivery does not end an order unsold.
delivered_sells :
    (a : OrderStatus) → same_order_status a OrderStatus.delivered ≡ true → ends_unsold a ≡ false
delivered_sells a h = ground arith

module _ (o : Orm) where
  -- What a status update has done: the order has the new status and is otherwise as before, as are
  -- all other orders; the history has one more row, from the old status to the new one; the newest
  -- event is that of the new status; the state is sound. A cancelled or expired order has no active
  -- hold left, the units of its active holds are available again, and its pending payments, and no
  -- others, have failed; any other update leaves stock and reservations as they were. The first
  -- pending payment on delivery of a delivered order is paid in full, with a charge recorded, and no
  -- other payment is written; an update to any other status leaves all payments as they were.
  pub record IsMoved (now id : ℕ) (order : Order) (next : OrderStatus) (changed_by : Option ℕ)
      (s s' : State o) : Type 0 where
    pub sound : IsSound o s'
    pub orders :
        (j : ℕ)
        → o.find Order j s'.orders
          ≡ (if id == j then some (with_status next order) else o.find Order j s.orders)
    pub history :
        s'.history
        ≡ record { order = id; previous = order.status; next = next; changed_by = changed_by }
          ∷ s.history
    pub event :
        (rest : List OutboxEntry) × (s'.outbox
          ≡ record {
            kind = EventKind.order_moved next;
            aggregate = id;
            order = id;
            amount = order.grand_total;
          }
            ∷ rest)
    pub stock :
        ((ends_unsold next ≡ true) × IsWoundUp o now id s s')
        ⊎ ((ends_unsold next ≡ false)
            × (s'.inventory ≡ s.inventory)
            × (s'.reservations ≡ s.reservations))
    pub paid :
        ((same_order_status next OrderStatus.delivered ≡ true) × IsCollected o now id s s')
        ⊎ ((same_order_status next OrderStatus.delivered ≡ false)
            × ((ends_unsold next ≡ true)
                ⊎ ((ends_unsold next ≡ false) × (s'.payments ≡ s.payments))))

  delivered_step :
      (b : Bool) (now id : ℕ) (s : State o)
      → (s' : State o) × (when o b (resolve_cod o now id) s ≡ (ok tt, s'))
        × OnlyPaid o s s'
        × (((b ≡ true) × IsCollected o now id s s') ⊎ ((b ≡ false) × (s'.payments ≡ s.payments)))
  delivered_step true now id s =
      let (s', e, only, collected) = resolve_cod_lem o now id s in
      (s', e, only, inl (refl, collected))
  delivered_step false now id s = (
    s,
    refl,
    record { orders = refl; history = refl; inventory = refl; reservations = refl },
    inr (refl, refl),
  )

  ended_step :
      (b : Bool) (now id : ℕ) (s : State o)
      → IsSound o s
      → (s' : State o) × (when o b (end_unsold o now id) s ≡ (ok tt, s'))
        × IsSound o s'
        × SameSales o s s'
        × (((b ≡ true) × IsWoundUp o now id s s') ⊎ ((b ≡ false) × (s' ≡ s)))
  ended_step true now id s c =
      let (s', e, sound, wound, same) = end_unsold_lem o now id s c in
      (s', e, sound, same, inl (refl, wound))
  ended_step false now id s c =
      (s, refl, c, record { orders = refl; history = refl }, inr (refl, refl))

  pub status_body_lem :
      (now id : ℕ) (order : Order) (next : OrderStatus) (changed_by : Option ℕ) (s : State o)
      → IsSound o s
      → o.find Order id s.orders ≡ some order
      → (s' : State o) × (status_body o now id order next changed_by s ≡ (ok tt, s'))
        × IsMoved now id order next changed_by s s'
  unfolding status_body
  status_body_lem now id order next changed_by s c here =
      let entry : HistoryEntry = record {
        order = id;
        previous = order.status;
        next = next;
        changed_by = changed_by;
      } in
      let s0 : State o = record s {
        orders = o.write Order id (with_status next order) s.orders;
        history = entry ∷ s.history;
      } in
      let (s1, e1, paid, collected) =
        delivered_step (same_order_status next OrderStatus.delivered) now id s0 in
      let c1 : IsSound o s1 = rw (paid.inventory, paid.reservations) c in
      let (s2, e2, c2, same, ended) = ended_step (ends_unsold next) now id s1 c1 in
      let event : OutboxEntry = record {
        kind = EventKind.order_moved next;
        aggregate = id;
        order = id;
        amount = order.grand_total;
      } in
      (
        record s2 { outbox = event ∷ s2.outbox },
        ground arith,
        record {
          sound = c2;
          orders = λ j.
              rw (same.orders, paid.orders)
                (o.find-write Order j id (with_status next order) s.orders);
          history = rw (same.history, paid.history) refl;
          event = (s2.outbox, refl);
          stock = elim ended [
            | inl (h, wound) ↦ inl (
              h,
              record {
                no_hold = wound.no_hold;
                no_pending = wound.no_pending;
                payments = failing s1 h collected wound;
                stock = before s1 paid.inventory paid.reservations wound;
              },
            )
            | inr (h, kept) ↦
                inr (h, ground (arith, paid.inventory), ground (arith, paid.reservations))
          ];
          paid = elim collected [
            | inl (h, done) ↦
                inl (h, settled s1 s2 (unsold_same s1 s2 (delivered_sells next h) ended) done)
            | inr (h, same0) ↦
                inr (
                  h,
                  elim ended [ inl (g, wound) ↦ inl g | inr (g, same2) ↦ inr (g, ground arith) ],
                )
          ];
        },
      )
    where
      before :
          (s1 : State o) {s2 : State o}
          → s1.inventory ≡ s.inventory
          → s1.reservations ≡ s.reservations
          → IsWoundUp o now id s1 s2
          → (v : ℕ)
          → o.find Inventory v s2.inventory
            ≡ Option.map (give_back (units v (holds_of o id s))) (o.find Inventory v s.inventory)
      before s1 e f w v = rw (← e, ← f) (w.stock v)

      unsold_same :
          (s1 s2 : State o)
          → ends_unsold next ≡ false
          → ((ends_unsold next ≡ true) × IsWoundUp o now id s1 s2)
            ⊎ ((ends_unsold next ≡ false) × (s2 ≡ s1))
          → s2 ≡ s1
      unsold_same s1 s2 h (inl (g, wound)) = cc
      unsold_same s1 s2 h (inr (g, same2)) = same2

      settled : (s1 s2 : State o) → s2 ≡ s1 → IsCollected o now id s s1 → IsCollected o now id s s2
      settled s1 s2 e h = subst (λ z. IsCollected o now id s z) (sym e) h

      failing :
          (s1 : State o) {s2 : State o}
          → ends_unsold next ≡ true
          → ((same_order_status next OrderStatus.delivered ≡ true) × IsCollected o now id s s1)
            ⊎ ((same_order_status next OrderStatus.delivered ≡ false) × (s1.payments ≡ s.payments))
          → IsWoundUp o now id s1 s2
          → (j : ℕ)
          → o.find Payment j s2.payments
            ≡ Option.map
                (λ p. if is_pending_of id p then failed_at o now p else p)
                (o.find Payment j s.payments)
      failing s1 g (inl (h, done)) w j = absurd (ground (arith, delivered_sells next h))
      failing s1 g (inr (h, same1)) w j = rw (← same1) (w.payments j)

  module _ (now id : ℕ) (next : OrderStatus) (changed_by : Option ℕ) (s : State o) where
    pub update_order_status_moves :
        (order : Order)
        → IsSound o s
        → o.find Order id s.orders ≡ some order
        → same_order_status order.status next ≡ false
        → is_valid_transition order.status next ≡ true
        → (s' : State o) × (update_order_status o now id next changed_by s
            ≡ (ok (some (with_status next order)), s'))
          × IsMoved now id order next changed_by s s'
    unfolding update_order_status move_order
    update_order_status_moves order c e differs valid =
        let (s', done, after) = status_body_lem now id order next changed_by s c e in
        (
          s',
          ground (
            arith,
            o.transaction-settle (State o) Error (Unit {0})
                (status_body o now id order next changed_by) s,
            after.orders id,
            ==_refl id,
          ),
          after,
        )

    -- In a sound state a status update does one of four things. An order that is not there is refused with
    -- `order_not_found`, and a transition that the state machine forbids with `bad_transition`, and
    -- the state is as it was. The status that the order already has is answered with the order, and
    -- changes nothing. Every other update succeeds, answers with the order in its
    -- new status, and leaves what `IsMoved` says.
    pub update_order_status_outcome :
        IsSound o s
        → ((o.find Order id s.orders ≡ none)
            × (update_order_status o now id next changed_by s ≡ (err Error.order_not_found, s)))
          ⊎ ((order : Order) × (o.find Order id s.orders ≡ some order)
              × (((is_valid_transition order.status next ≡ false)
                    × (update_order_status o now id next changed_by s
                        ≡ (err (Error.bad_transition order.status next), s)))
                  ⊎ (((same_order_status order.status next ≡ true)
                        × (update_order_status o now id next changed_by s ≡ (ok (some order), s)))
                      ⊎ ((same_order_status order.status next ≡ false)
                          × (is_valid_transition order.status next ≡ true)
                          × ((s' : State o) × (update_order_status o now id next changed_by s
                                ≡ (ok (some (with_status next order)), s'))
                              × IsMoved now id order next changed_by s s')))))
    unfolding update_order_status move_order
    update_order_status_outcome c = elim (Option-cases (o.find Order id s.orders)) [
      | inl e ↦ inl (e, ground arith)
      | inr (order, e) ↦ inr (order, e, found order e)
    ]
      where
        found :
            (order : Order)
            → o.find Order id s.orders ≡ some order
            → ((is_valid_transition order.status next ≡ false)
                × (update_order_status o now id next changed_by s
                    ≡ (err (Error.bad_transition order.status next), s)))
              ⊎ (((same_order_status order.status next ≡ true)
                    × (update_order_status o now id next changed_by s ≡ (ok (some order), s)))
                  ⊎ ((same_order_status order.status next ≡ false)
                      × (is_valid_transition order.status next ≡ true)
                      × ((s' : State o) × (update_order_status o now id next changed_by s
                            ≡ (ok (some (with_status next order)), s'))
                          × IsMoved now id order next changed_by s s')))
        found order e = elim (Bool-cases (same_order_status order.status next)) [
          | inl same ↦ inr (inl (same, ground arith))
          | inr differs ↦ elim (Bool-cases (is_valid_transition order.status next)) [
            | inl valid ↦
                inr (inr (differs, valid, update_order_status_moves order c e differs valid))
            | inr bad ↦ inl (bad, ground arith)
          ]
        ]
