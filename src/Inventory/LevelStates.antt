-- ===== src/Inventory/LevelStates.antt =====
-- `stock.service.ts`: what each operation leaves, and that a sound state stays sound.
use meeo_server.Base.{
  ℕ, ◌≡◌, inl, inr, Option, none, some, true, false, ◌∷◌, arith, Option-cases, Bool-cases,
}
use meeo_server.Base.Int.{ℤ, pos, ◌+ℤ◌, ◌-ℤ◌, ltb_ℤ, +ℤ_parts, -ℤ_parts}
use meeo_server.Base.Result.{ok, err}
use meeo_server.Orm.{Orm}
use meeo_server.Store.{Inventory, LedgerKind, LedgerEntry, Reference, State, Error}
use meeo_server.Inventory.Levels.{
  empty_level, reference_or, Adjustment, adjusted, delta_of, get_inventory, add_body, add_stock,
  remove_body, remove_stock, adjust_body, adjust_stock,
}
use meeo_server.Inventory.Balance.{IsSound, restock-IsConsistent}
use meeo_server.Inventory.Soundness.{in_transaction-IsSound}

module _ (o : Orm) where
  -- The stock row of a variant is written, and then the ledger.
  abbrev pub stocked_state : ℕ → Inventory → LedgerEntry → State o → State o
  stocked_state v i e s = record s {
    inventory = o.write Inventory v i s.inventory;
    ledger = e ∷ s.ledger;
  }

  abbrev pub level_entry : ℕ → LedgerKind → ℤ → Reference → LedgerEntry
  level_entry v kind d reference = record {
    variant = v;
    kind = kind;
    quantity = d;
    reference = reference;
  }

  -- The row that an addition leaves.
  abbrev pub added : ℕ → Option Inventory → Inventory
  added q none = record empty_level { available = pos q }
  added q (some i) = record i { available = i.available +ℤ pos q }

  module _ (v : ℕ) (s : State o) where
    pub add_unknown :
        (q : ℕ) (reference : Option Reference)
        → o.find (Unit {0}) v s.variants ≡ none
        → add_body o v q reference s ≡ (err Error.variant_not_found, s)
    unfolding add_body
    add_unknown q reference e = ground arith

    pub add_known :
        (q : ℕ) (reference : Option Reference) (x : Option Inventory)
        → o.find (Unit {0}) v s.variants ≡ some tt
        → o.find Inventory v s.inventory ≡ x
        → let e =
            level_entry v LedgerKind.stock_added
              (pos q)
              (reference_or reference Reference.restock) in
          add_body o v q reference s ≡ (ok (added q x, e), stocked_state v (added q x) e s)
    unfolding add_body
    add_known q reference none known e = ground arith
    add_known q reference (some i) known e = ground arith

    module _ (q : ℕ) (reference : Option Reference) where
      pub remove_missing :
          o.find Inventory v s.inventory ≡ none
          → remove_body o v q reference s ≡ (err Error.inventory_not_found, s)
      unfolding remove_body
      remove_missing e = ground arith

      pub remove_short :
          (i : Inventory)
          → o.find Inventory v s.inventory ≡ some i
          → ltb_ℤ i.available (pos q) ≡ true
          → remove_body o v q reference s ≡ (err Error.insufficient_stock, s)
      unfolding remove_body
      remove_short i e a = ground arith

      pub remove_covered :
          (i : Inventory)
          → o.find Inventory v s.inventory ≡ some i
          → ltb_ℤ i.available (pos q) ≡ false
          → let i' = record i { available = i.available -ℤ pos q } in
            let e =
              level_entry v LedgerKind.stock_removed
                (pos q)
                (reference_or reference Reference.write_off) in
            remove_body o v q reference s ≡ (ok (i', e), stocked_state v i' e s)
      unfolding remove_body
      remove_covered i e a = ground arith

    module _ (a : Adjustment) where
      pub adjust_missing :
          o.find Inventory v s.inventory ≡ none
          → adjust_body o v a s ≡ (err Error.inventory_not_found, s)
      unfolding adjust_body
      adjust_missing e = ground arith

      pub adjust_found :
          (i : Inventory)
          → o.find Inventory v s.inventory ≡ some i
          → let e =
              level_entry v LedgerKind.manual_adjustment (delta_of a i) Reference.manual_audit in
            adjust_body o v a s ≡ (ok (adjusted a i, e), stocked_state v (adjusted a i) e s)
      unfolding adjust_body
      adjust_found i e = ground arith

    pub add_stock-IsSound :
        (q : ℕ) (reference : Option Reference)
        → IsSound o s
        → IsSound o (add_stock o v q reference s).1
    unfolding add_stock
    add_stock-IsSound q reference c =
        in_transaction-IsSound o (add_body o v q reference) s c
          (elim (Option-cases (o.find (Unit {0}) v s.variants)) [
            | inl e ↦ rw (add_unknown q reference e) c
            | inr (u, e) ↦ elim (Option-cases (o.find Inventory v s.inventory)) [
              | inl none_yet ↦ rw (add_known q reference none e none_yet) (
                  restock-IsConsistent o s.inventory s.reservations v (added q none) c
                    (ground (arith, c.balanced v)) (omega arith))
              | inr (i, here) ↦ rw (add_known q reference (some i) e here) (
                  restock-IsConsistent o s.inventory s.reservations v (added q (some i)) c
                    (ground (arith, c.balanced v))
                    (ground (arith, c.balanced v, +ℤ_parts i.available (pos q))))
            ]
          ])

    pub remove_stock-IsSound :
        (q : ℕ) (reference : Option Reference)
        → IsSound o s
        → IsSound o (remove_stock o v q reference s).1
    unfolding remove_stock
    remove_stock-IsSound q reference c =
        in_transaction-IsSound o (remove_body o v q reference) s c
          (elim (Option-cases (o.find Inventory v s.inventory)) [
            | inl e ↦ rw (remove_missing q reference e) c
            | inr (i, e) ↦ elim (Bool-cases (ltb_ℤ i.available (pos q))) [
              | inl short ↦ rw (remove_short q reference i e short) c
              | inr enough ↦ rw (remove_covered q reference i e enough) (
                  restock-IsConsistent o s.inventory s.reservations v
                    (record i { available = i.available -ℤ pos q }) c (ground (arith, c.balanced v))
                    (ground (arith, c.balanced v, -ℤ_parts i.available (pos q))))
            ]
          ])

    pub adjust_stock-IsSound : (a : Adjustment) → IsSound o s → IsSound o (adjust_stock o v a s).1
    unfolding adjust_stock
    adjust_stock-IsSound a c =
        in_transaction-IsSound o (adjust_body o v a) s c
          (elim (Option-cases (o.find Inventory v s.inventory)) [
            | inl e ↦ rw (adjust_missing a e) c
            | inr (i, e) ↦ rw (adjust_found a i e) (
                restock-IsConsistent o s.inventory s.reservations v (adjusted a i) c
                  (ground (arith, c.balanced v)) (ground (arith, c.balanced v)))
          ])

    pub get_inventory-IsSound : IsSound o s → IsSound o (get_inventory o v s).1
    unfolding get_inventory
    get_inventory-IsSound c = elim (Option-cases (o.find (Unit {0}) v s.variants)) [
      | inl e ↦ ground arith
      | inr (u, e) ↦ elim (Option-cases (o.find Inventory v s.inventory)) [
        | inl none_yet ↦ ground (
          arith,
          restock-IsConsistent o s.inventory s.reservations v empty_level c
              (ground (arith, c.balanced v)) (omega arith),
        )
        | inr (i, here) ↦ ground arith
      ]
    ]
