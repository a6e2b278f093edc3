-- ===== src/Inventory/Simulation.antt =====
-- Each request on stock and reservations is, for each variant, a run of acts on its pool.
use mathlib.Core.Option
use meeo_server.Base.{
  ℕ, ◌≡◌, refl, inl, inr, Option, none, some, true, List, arith, Option-cases, Bool-cases, ==_iff,
}
use meeo_server.Base.Int.{pos, ◌≤ℤ◌, ltb_ℤ}
use meeo_server.Orm.{Orm}
use meeo_server.Store.{Inventory, Reservation, is_active, LedgerKind, Reference, State}
use meeo_server.Inventory.Holds.{set_aside, close_hold}
use meeo_server.Inventory.OrderHolds.{Requirement, reserve_item}
use meeo_server.Inventory.Balance.{IsSound, stock_of_hold}
use meeo_server.Inventory.Closing.{
  IsClosing, IsEnding, closed_state, closed_state-IsSound, close_hold-eq, entry_of, opened_state,
  open_hold-eq,
}
use meeo_server.Inventory.Sweep.{Swept, units}
use meeo_server.Inventory.Pool.{Kind, Act, Run}
use meeo_server.Inventory.Refinement.{
  pool_of, set_aside-Act, row_at, Follows, Follows-same, Follows-write,
}

-- A closing move is an act on the pool, of the labelled kind, where both rows count no unit below zero.
abbrev pub IsAct : (ℕ → Inventory → Inventory) → (ℕ → Kind) → Type 0
IsAct move label =
    (q : ℕ) (i : Inventory)
    → pos 0 ≤ℤ i.available
    → pos 0 ≤ℤ i.reserved
    → pos 0 ≤ℤ (move q i).reserved
    → Act (label q) (some (pool_of i)) (some (pool_of (move q i)))

module _ (o : Orm) where
  -- The counters of a row of a sound state are not negative.
  pub counted :
      (v : ℕ) (i : Inventory) (s : State o)
      → IsSound o s
      → o.find Inventory v s.inventory ≡ some i
      → (pos 0 ≤ℤ i.available) × (pos 0 ≤ℤ i.reserved)
  counted v i s c e = ground (arith, c.balanced v)

  pub row_at-found :
      (v : ℕ) (x : Option Inventory) (s : State o)
      → o.find Inventory v s.inventory ≡ x
      → row_at o v s ≡ Option.map pool_of x
  unfolding row_at
  row_at-found v x s e = rw e

  module _ (allowed : ℕ → Kind → Type 0) where
    pub opened-Follows :
        (v q : ℕ) (order : Option ℕ) (t : ℕ) (reference : ℕ → Reference) (i : Inventory)
        (s : State o)
        → IsSound o s
        → o.find Inventory v s.inventory ≡ some i
        → pos q ≤ℤ i.available
        → allowed v (Kind.held q)
        → Follows o allowed s (opened_state o v q order t reference i s)
    opened-Follows v q order t reference i s c e enough permit =
        Follows-write o allowed v (set_aside q i) s (opened_state o v q order t reference i s)
          (Kind.held q) refl permit
          (rw (row_at-found v (some i) s e) (set_aside-Act q i enough (counted v i s c e).1))

    pub close-Follows :
        (move : ℕ → Inventory → Inventory) (label : ℕ → Kind) (rewrite : Reservation → Reservation)
        (kind : LedgerKind) (reference : Reference) (k : ℕ) (r : Reservation) (s : State o)
        → IsSound o s
        → o.find Reservation k s.reservations ≡ some r
        → is_active r.status ≡ true
        → IsClosing move
        → IsEnding rewrite r
        → IsAct move label
        → ((v q : ℕ) → allowed v (label q))
        → Follows o allowed s (close_hold o move rewrite kind reference (k, r) s).1
    close-Follows move label rewrite kind reference k r s c here a closing ending act permit =
        let (i, stocked) = stock_of_hold o s.inventory s.reservations k c here a in
        let e = entry_of o kind reference r in
        let s' = closed_state o move rewrite e (k, r) i s in
        let c' =
          closed_state-IsSound o move rewrite kind reference k r i s c stocked here a closing
            ending in
        let now = counted r.variant i s c stocked in
        let later = counted r.variant (move r.quantity i) s' c' (
          ground (
            arith,
            o.find-write Inventory r.variant r.variant (move r.quantity i) s.inventory,
            ==_iff r.variant r.variant,
          )) in
        rw (close_hold-eq o move rewrite kind reference k r i s stocked here) (
          Follows-write o allowed r.variant (move r.quantity i) s s' (label r.quantity) refl
            (permit r.variant r.quantity)
            (rw (row_at-found r.variant (some i) s stocked) (act r.quantity i now.0 now.1 later.1)))

    -- A sweep is one act for each variant.
    pub Swept-Follows :
        (move : ℕ → Inventory → Inventory) (label : ℕ → Kind) (rewrite : Reservation → Reservation)
        (l : List (ℕ × Reservation)) (s s' : State o)
        → IsAct move label
        → ((v q : ℕ) → allowed v (label q))
        → IsSound o s
        → Swept o move rewrite l s s'
        → Follows o allowed s s'
    unfolding Follows
    Swept-Follows move label rewrite l s s' act permit c after v =
        elim (Option-cases (o.find Inventory v s.inventory)) [
          | inl e ↦
              let gone : o.find Inventory v s'.inventory ≡ none = ground (arith, after.stock v) in
              rw (row_at-found v none s e, row_at-found v none s' gone) Run.done
          | inr (i, e) ↦
              let q = units v l in
              let left : o.find Inventory v s'.inventory ≡ some (move q i) =
                ground (arith, after.stock v) in
              let now = counted v i s c e in
              let later = counted v (move q i) s' after.sound left in
              rw (row_at-found v (some i) s e, row_at-found v (some (move q i)) s' left)
                (Run.next (permit v q) (act q i now.0 now.1 later.1) Run.done)
        ]

    pub reserve_item-Follows :
        (t order : ℕ) (item : Requirement) (s : State o)
        → IsSound o s
        → allowed item.variant (Kind.held item.quantity)
        → Follows o allowed s (reserve_item o t order item s).1
    unfolding reserve_item
    reserve_item-Follows t order item s c permit =
        elim (Option-cases (o.find Inventory item.variant s.inventory)) [
          | inl e ↦ Follows-same o allowed s (reserve_item o t order item s).1 (ground arith)
          | inr (i, e) ↦ elim (Bool-cases (ltb_ℤ i.available (pos item.quantity))) [
            | inl short ↦ Follows-same o allowed s (reserve_item o t order item s).1 (ground arith)
            | inr enough ↦
                let s' =
                  opened_state o item.variant item.quantity (some order) t
                    (λ _. Reference.order order) i s in
                let eq : (reserve_item o t order item s).1 ≡ s' = ground (
                  arith,
                  open_hold-eq o item.variant item.quantity (some order) t
                      (λ _. Reference.order order) i s e,
                ) in
                rw eq (
                  opened-Follows item.variant item.quantity (some order) t
                    (λ _. Reference.order order) i s c e (ground arith) permit)
          ]
        ]
