-- ===== src/Inventory/Closing.antt =====
-- What opening and closing a reservation does to a sound state (`reservation.service.ts`).
use meeo_server.Base.{ℕ, ◌<◌, ◌≡◌, refl, Option, some, true, false, ◌∷◌, arith}
use meeo_server.Base.Int.{pos, ◌-ℤ◌, ◌≤ℤ◌, int_laws}
use meeo_server.Base.Result.{ok}
use meeo_server.Orm.{Orm}
use meeo_server.Store.{
  Inventory, Reservation, ReservationStatus, is_active, LedgerKind, LedgerEntry, Reference, State,
}
use meeo_server.Inventory.Holds.{give_back, commit, set_aside, open_hold, close_hold}
use meeo_server.Inventory.Balance.{IsSound, close-IsConsistent, open-IsConsistent}

-- The reserved count falls by the units, and the available count does not fall.
abbrev pub IsClosing : (ℕ → Inventory → Inventory) → Type 0
IsClosing move =
    (q : ℕ) (i : Inventory)
    → ((move q i).reserved ≡ i.reserved -ℤ pos q) × (i.available ≤ℤ (move q i).available)

pub give_back-IsClosing : IsClosing give_back
give_back-IsClosing q i = (refl, omega int_laws)

pub commit-IsClosing : IsClosing commit
commit-IsClosing q i = (refl, omega arith)

-- A rewrite that ends a reservation and keeps its variant and its units.
pub record IsEnding (rewrite : Reservation → Reservation) (r : Reservation) : Type 0 where
  pub ended : is_active (rewrite r).status ≡ false
  pub units : (rewrite r).quantity ≡ r.quantity

module _ (o : Orm) where
  abbrev pub closed_state :
      (ℕ → Inventory → Inventory)
      → (Reservation → Reservation)
      → LedgerEntry
      → ℕ × Reservation
      → Inventory
      → State o
      → State o
  closed_state move rewrite e (k, r) i s = record s {
    inventory = o.write Inventory r.variant (move r.quantity i) s.inventory;
    reservations = o.write Reservation k (rewrite r) s.reservations;
    ledger = e ∷ s.ledger;
  }

  abbrev pub entry_of : LedgerKind → Reference → Reservation → LedgerEntry
  entry_of kind reference r = record {
    variant = r.variant;
    kind = kind;
    quantity = pos r.quantity;
    reference = reference;
  }

  module _ (move : ℕ → Inventory → Inventory) (rewrite : Reservation → Reservation)
      (kind : LedgerKind) (reference : Reference) (k : ℕ) (r : Reservation) (i : Inventory)
      (s : State o) where
    pub close_hold-eq :
        o.find Inventory r.variant s.inventory ≡ some i
        → o.find Reservation k s.reservations ≡ some r
        → close_hold o move rewrite kind reference (k, r) s ≡ (
          ok (record {
            key = k;
            reservation = rewrite r;
            inventory = move r.quantity i;
            entry = entry_of kind reference r;
          }),
          closed_state move rewrite (entry_of kind reference r) (k, r) i s,
        )
    unfolding close_hold
    close_hold-eq stocked here = ground arith

    pub closed_state-IsSound :
        IsSound o s
        → o.find Inventory r.variant s.inventory ≡ some i
        → o.find Reservation k s.reservations ≡ some r
        → is_active r.status ≡ true
        → IsClosing move
        → IsEnding rewrite r
        → IsSound o (closed_state move rewrite (entry_of kind reference r) (k, r) i s)
    closed_state-IsSound c stocked here a closing ending =
        close-IsConsistent o s.inventory s.reservations k r (rewrite r) i (move r.quantity i) c
          stocked here a ending.ended ending.units (closing r.quantity i).0 (closing r.quantity i).1

  abbrev pub opened_by : ℕ → ℕ → Option ℕ → ℕ → Reservation
  opened_by v q order expires_at = record {
    variant = v;
    order = order;
    quantity = q;
    status = ReservationStatus.active;
    expires_at = expires_at;
  }

  abbrev pub opened_state : ℕ → ℕ → Option ℕ → ℕ → (ℕ → Reference) → Inventory → State o → State o
  opened_state v q order t reference i s =
      let k = o.fresh Reservation s.reservations in
      record s {
        inventory = o.write Inventory v (set_aside q i) s.inventory;
        reservations = o.write Reservation k (opened_by v q order t) s.reservations;
        ledger =
            entry_of LedgerKind.order_reserved (reference k) (opened_by v q order t) ∷ s.ledger;
      }

  module _ (v q : ℕ) (order : Option ℕ) (t : ℕ) (reference : ℕ → Reference) (i : Inventory)
      (s : State o) where
    pub open_hold-eq :
        o.find Inventory v s.inventory ≡ some i
        → let k = o.fresh Reservation s.reservations in
          open_hold o v q order t reference s ≡ (
            ok (record {
              key = k;
              reservation = opened_by v q order t;
              inventory = set_aside q i;
              entry = entry_of LedgerKind.order_reserved (reference k) (opened_by v q order t);
            }),
            opened_state v q order t reference i s,
          )
    unfolding open_hold
    open_hold-eq stocked = ground arith

    pub opened_state-IsSound :
        IsSound o s
        → o.find Inventory v s.inventory ≡ some i
        → 0 < q
        → pos q ≤ℤ i.available
        → IsSound o (opened_state v q order t reference i s)
    opened_state-IsSound c stocked positive enough =
        open-IsConsistent o s.inventory s.reservations (opened_by v q order t) i (set_aside q i) c
          stocked refl positive refl (omega int_laws)
