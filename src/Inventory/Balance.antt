-- ===== src/Inventory/Balance.antt =====
-- The invariant that ties the stock counters to the reservations, under the writes that open and
-- close a reservation (`reservation.service.ts`, `orderInventory.service.ts`).
use meeo_server.Base.{
  ℕ, ◌<◌, ◌≤◌, ◌≡◌, inl, inr, Option, some, none, true, false, ◌&&◌, arith, ◌==◌, if◌then◌else◌,
  Option-cases, ==_refl,
}
use meeo_server.Base.Int.{pos, ◌+ℤ◌, ◌-ℤ◌, ◌≤ℤ◌, +ℤ_parts, -ℤ_parts, eq_of_parts}
use meeo_server.Orm.{Orm}
use meeo_server.Store.{Inventory, Reservation, ReservationStatus, is_active, State}
use meeo_server.Inventory.Holds.{mark}

-- The units that a reservation holds of a variant.
abbrev pub hold : ℕ → Reservation → ℕ
hold v r = if r.variant == v && is_active r.status then r.quantity else 0

-- The reserved units of a variant are those that active reservations hold, and what is available is
-- not negative. A variant without a stock row has no active reservation.
abbrev pub IsBalanced : Option Inventory → ℕ → Type 0
IsBalanced none h = h ≡ 0
IsBalanced (some i) h = (i.reserved ≡ pos h) × (pos 0 ≤ℤ i.available)

abbrev pub IsPositive : Option Reservation → Type 0
IsPositive none = Unit
IsPositive (some r) = 0 < r.quantity

module _ (o : Orm) where
  abbrev pub held : ℕ → o.Table Reservation → ℕ
  held v t = o.total Reservation (hold v) t

  pub record IsConsistent (inv : o.Table Inventory) (res : o.Table Reservation) : Type 0 where
    pub balanced : (v : ℕ) → IsBalanced (o.find Inventory v inv) (held v res)
    pub positive : (k : ℕ) → IsPositive (o.find Reservation k res)

  -- The stock counters and the reservations of a state agree.
  abbrev pub IsSound : State o → Type 0
  IsSound s = IsConsistent s.inventory s.reservations

  pub hold-le-held :
      (k : ℕ) {r : Reservation} (t : o.Table Reservation)
      → o.find Reservation k t ≡ some r
      → hold r.variant r ≤ held r.variant t
  hold-le-held k {r} t e =
      ground
        (arith, o.total-write Reservation (hold r.variant) k (mark ReservationStatus.released r) t)

  -- The variant of an active reservation has a stock row.
  pub stock_of_hold :
      (inv : o.Table Inventory) (res : o.Table Reservation) (k : ℕ) {r : Reservation}
      → IsConsistent inv res
      → o.find Reservation k res ≡ some r
      → is_active r.status ≡ true
      → (i : Inventory) × (o.find Inventory r.variant inv ≡ some i)
  stock_of_hold inv res k {r} c e a = elim (Option-cases (o.find Inventory r.variant inv)) [
    | inl missing ↦
        ground (arith, hold-le-held k res e, c.balanced r.variant, c.positive k, ==_refl r.variant)
    | inr found ↦ found
  ]

  -- A stock row whose reserved count stays, and whose available count is not negative.
  pub restock-IsConsistent :
      (inv : o.Table Inventory) (res : o.Table Reservation) (v : ℕ) (i' : Inventory)
      → IsConsistent inv res
      → i'.reserved ≡ pos (held v res)
      → pos 0 ≤ℤ i'.available
      → IsConsistent (o.write Inventory v i' inv) res
  restock-IsConsistent inv res v i' c e h = record {
    balanced = λ w. ground (arith, o.find-write Inventory w v i' inv, c.balanced w);
    positive = c.positive;
  }

  -- An active reservation opened, with the stock shifted.
  pub open-IsConsistent :
      (inv : o.Table Inventory) (res : o.Table Reservation) (r' : Reservation) (i i' : Inventory)
      → IsConsistent inv res
      → o.find Inventory r'.variant inv ≡ some i
      → is_active r'.status ≡ true
      → 0 < r'.quantity
      → i'.reserved ≡ i.reserved +ℤ pos r'.quantity
      → pos 0 ≤ℤ i'.available
      → let k = o.fresh Reservation res in
        IsConsistent (o.write Inventory r'.variant i' inv) (o.write Reservation k r' res)
  open-IsConsistent inv res r' i i' c found a q e h =
      let k = o.fresh Reservation res in
      record {
        balanced = λ w. ground (
          arith,
          o.find-write Inventory w r'.variant i' inv,
          o.total-write Reservation (hold w) k r' res,
          o.find-fresh Reservation res,
          c.balanced w,
          +ℤ_parts i.reserved (pos r'.quantity),
          eq_of_parts i'.reserved (pos (held w (o.write Reservation k r' res))),
        );
        positive = λ j. ground (arith, o.find-write Reservation j k r' res, c.positive j);
      }

  -- An active reservation closed, with its units taken off the reserved count.
  pub close-IsConsistent :
      (inv : o.Table Inventory) (res : o.Table Reservation) (k : ℕ) (r r' : Reservation)
      (i i' : Inventory)
      → IsConsistent inv res
      → o.find Inventory r.variant inv ≡ some i
      → o.find Reservation k res ≡ some r
      → is_active r.status ≡ true
      → is_active r'.status ≡ false
      → r'.quantity ≡ r.quantity
      → i'.reserved ≡ i.reserved -ℤ pos r.quantity
      → i.available ≤ℤ i'.available
      → IsConsistent (o.write Inventory r.variant i' inv) (o.write Reservation k r' res)
  close-IsConsistent inv res k r r' i i' c found here a b q e h = record {
    balanced = λ w. ground (
      arith,
      o.find-write Inventory w r.variant i' inv,
      o.total-write Reservation (hold w) k r' res,
      c.balanced w,
      -ℤ_parts i.reserved (pos r.quantity),
      eq_of_parts i'.reserved (pos (held w (o.write Reservation k r' res))),
    );
    positive = λ j. ground (arith, o.find-write Reservation j k r' res, c.positive j, c.positive k);
  }
