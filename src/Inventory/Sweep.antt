-- ===== src/Inventory/Sweep.antt =====
-- A loop that closes reservations, over rows that a query found (`expireStaleReservations`,
-- `releaseOrderReservations` and the loops that confirm an order's holds).
use mathlib.Core.Option
use meeo_server.Base.{
  ℕ, ◌+◌, ◌≡◌, refl, sym, ◌∙◌, ==_refl, Option, none, some, Bool, true, List, [], ◌∷◌, arith, ◌==◌,
  if◌then◌else◌, find_in, Distinct, keep, sum_by,
}
use meeo_server.Base.Int.{+ℤ-zero, -ℤ-zero, +ℤ-pos, -ℤ-pos}
use meeo_server.Base.Result.{ok, for_each}
use meeo_server.Orm.{Orm}
use meeo_server.Store.{Inventory, Reservation, is_active, LedgerEntry, State, Service}
use meeo_server.Inventory.Holds.{give_back, commit}
use meeo_server.Inventory.Balance.{IsSound}
use meeo_server.Inventory.Closing.{closed_state}

-- The units of a variant that a list of reservations holds.
abbrev pub units : ℕ → List (ℕ × Reservation) → ℕ
units v [] = 0
units v ((k, r) ∷ l) = (if r.variant == v then r.quantity else 0) + units v l

abbrev pub all_units : List (ℕ × Reservation) → ℕ
all_units [] = 0
all_units ((k, r) ∷ l) = r.quantity + all_units l

-- Moving nothing changes nothing, and two moves are one move of the sum.
pub record IsAdditive (move : ℕ → Inventory → Inventory) : Type 0 where
  pub nothing : (i : Inventory) → move 0 i ≡ i
  pub twice : (p q : ℕ) (i : Inventory) → move q (move p i) ≡ move (p + q) i

pub give_back-IsAdditive : IsAdditive give_back
give_back-IsAdditive = record {
  nothing = λ i. ground (arith, +ℤ-zero i.available, -ℤ-zero i.reserved);
  twice = λ p q i. ground (arith, +ℤ-pos i.available p q, -ℤ-pos i.reserved p q);
}

pub commit-IsAdditive : IsAdditive commit
commit-IsAdditive = record {
  nothing = λ i. ground (arith, -ℤ-zero i.reserved);
  twice = λ p q i. ground (arith, -ℤ-pos i.reserved p q);
}

module _ (o : Orm) (move : ℕ → Inventory → Inventory) (rewrite : Reservation → Reservation) where
  -- The rows of a list stand in the table, and are active.
  abbrev pub Live : List (ℕ × Reservation) → o.Table Reservation → Type 0
  Live [] t = Unit
  Live ((k, r) ∷ l) t = (o.find Reservation k t ≡ some r) × (is_active r.status ≡ true) × Live l t

  abbrev pub rewritten : Option Reservation → Option Reservation → Option Reservation
  rewritten none x = x
  rewritten (some r) x = some (rewrite r)

  -- What the loop has done to a state: each reservation of the list is rewritten, the stock of each
  -- variant is moved by the units of the list, and only the ledger is written besides.
  pub record Swept (l : List (ℕ × Reservation)) (s s' : State o) : Type 0 where
    pub sound : IsSound o s'
    pub reservations :
        (j : ℕ)
        → o.find Reservation j s'.reservations
          ≡ rewritten (find_in j l) (o.find Reservation j s.reservations)
    pub stock :
        (v : ℕ)
        → o.find Inventory v s'.inventory
          ≡ Option.map (move (units v l)) (o.find Inventory v s.inventory)
    pub rest :
        s'
        ≡ record s { inventory = s'.inventory; reservations = s'.reservations; ledger = s'.ledger }

  Live-write :
      (k : ℕ) (r : Reservation) (l : List (ℕ × Reservation)) (t : o.Table Reservation)
      → find_in k l ≡ none
      → Live l t
      → Live l (o.write Reservation k r t)
  Live-write k r [] t e h = tt
  Live-write k r ((j, x) ∷ l) t e h =
      ground (arith, Live-write k r l t, o.find-write Reservation j k r t)

  -- One round closes one reservation, and returns its units in some form.
  abbrev pub IsRound : {B : Type 0} → (B → ℕ) → (ℕ × Reservation → Service o B) → Type 0
  IsRound {B} weight body =
      (k : ℕ) (r : Reservation) (s : State o)
      → IsSound o s
      → o.find Reservation k s.reservations ≡ some r
      → is_active r.status ≡ true
      → (b : B) × (i : Inventory) × (e : LedgerEntry) × (o.find Inventory r.variant s.inventory
          ≡ some i)
        × (body (k, r) s ≡ (ok b, closed_state o move rewrite e (k, r) i s))
        × IsSound o (closed_state o move rewrite e (k, r) i s)
        × (weight b ≡ r.quantity)

  map_nothing : IsAdditive move → (x : Option Inventory) → x ≡ Option.map (move 0) x
  map_nothing additive none = refl
  map_nothing additive (some i) = ground (arith, additive.nothing i)

  module _ {B : Type 0} (weight : B → ℕ) (body : ℕ × Reservation → Service o B)
      (additive : IsAdditive move) (round : IsRound weight body) where
    pub sweep :
        (l : List (ℕ × Reservation)) (s : State o)
        → IsSound o s
        → Live l s.reservations
        → Distinct l
        → (bs : List B) × (s' : State o) × (for_each body l s ≡ (ok bs, s'))
          × Swept l s s'
          × (sum_by weight bs ≡ all_units l)
    unfolding for_each
    sweep [] s c live d = (
      [],
      s,
      refl,
      record {
        sound = c;
        reservations = λ j. refl;
        stock = λ v. map_nothing additive (o.find Inventory v s.inventory);
        rest = refl;
      },
      refl,
    )
    sweep ((k, r) ∷ l) s c live d =
        let (b, i, e, stocked, eq, c1, w) = round k r s c live.0 live.1 in
        let s1 = closed_state o move rewrite e (k, r) i s in
        let live1 = Live-write k (rewrite r) l s.reservations d.0 live.2 in
        let (bs, s2, eq2, after, sum) = sweep l s1 c1 live1 d.1 in
        (
          b ∷ bs,
          s2,
          ground arith,
          record {
            sound = after.sound;
            reservations = λ j. ground (
              arith,
              after.reservations j,
              o.find-write Reservation j k (rewrite r) s.reservations,
            );
            stock = λ v. ground (
              arith,
              after.stock v,
              o.find-write Inventory v r.variant (move r.quantity i) s.inventory,
              additive.twice r.quantity (units v l) i,
            );
            rest = ground (arith, after.rest);
          },
          omega arith,
        )

module _ (o : Orm) (p : Reservation → Bool) (t : o.Table Reservation) where
  -- A list of distinct keys that looks up only active rows of the table is live.
  Live-of_lookup :
      (move : ℕ → Inventory → Inventory) (rewrite : Reservation → Reservation)
      (l : List (ℕ × Reservation))
      → Distinct l
      → ((k : ℕ) (r : Reservation)
          → find_in k l ≡ some r
          → (o.find Reservation k t ≡ some r) × (is_active r.status ≡ true))
      → Live o move rewrite l t
  Live-of_lookup move rewrite [] d h = tt
  Live-of_lookup move rewrite ((j, x) ∷ l) d h =
      let here = h j x (rw (==_refl j)) in
      (here.0, here.1, Live-of_lookup move rewrite l d.1 (λ k r e. h k r (ground (arith, d.0))))

  -- The rows that a query for active reservations finds are live.
  pub find_many-Live :
      (move : ℕ → Inventory → Inventory) (rewrite : Reservation → Reservation)
      → ((r : Reservation) → p r ≡ true → is_active r.status ≡ true)
      → Live o move rewrite (o.find_many Reservation p t) t
  find_many-Live move rewrite active =
      Live-of_lookup move rewrite (o.find_many Reservation p t)
        (o.find_many-Distinct Reservation p t)
        (λ k r e. found k r (sym (o.find_in-find_many Reservation p k t) ∙ e))
    where
      kept :
          (x : Option Reservation) (r : Reservation)
          → keep p x ≡ some r
          → (x ≡ some r) × (is_active r.status ≡ true)
      kept none r e = cc
      kept (some y) r e = ground (arith, active y)

      found :
          (k : ℕ) (r : Reservation)
          → keep p (o.find Reservation k t) ≡ some r
          → (o.find Reservation k t ≡ some r) × (is_active r.status ≡ true)
      found k r e = kept (o.find Reservation k t) r e
