-- ===== src/Inventory/LevelRuns.antt =====
-- `stock.service.ts`: each operation is, for each variant, a run of acts on its pool.
use mathlib.Core.Option
use meeo_server.Base.{ℕ, ◌≡◌, refl, inl, inr, Option, none, some, arith, Option-cases, Bool-cases}
use meeo_server.Base.Int.{pos, pos_part, ◌-ℤ◌, ltb_ℤ, +ℤ_parts, -ℤ_parts}
use meeo_server.Orm.{Orm}
use meeo_server.Store.{Inventory, LedgerEntry, Reference, State}
use meeo_server.Inventory.Levels.{
  empty_level, Adjustment, adjusted, get_inventory, add_body, add_stock, remove_body, remove_stock,
  adjust_body, adjust_stock,
}
use meeo_server.Inventory.LevelStates.{
  stocked_state, added, add_unknown, add_known, remove_missing, remove_short, remove_covered,
  adjust_missing, adjust_found,
}
use meeo_server.Inventory.Balance.{IsSound}
use meeo_server.Inventory.Pool.{Kind, Act}
use meeo_server.Inventory.Refinement.{
  pool_of, Follows, Follows-refl, Follows-same, Follows-write, in_transaction-Follows,
}
use meeo_server.Inventory.Simulation.{counted, row_at-found}

module _ (o : Orm) (allowed : ℕ → Kind → Type 0) where
  -- A level that is written goes by one act, if the held count stays.
  stocked-Follows :
      (v : ℕ) (x : Option Inventory) (i' : Inventory) (e : LedgerEntry) (s : State o) (k : Kind)
      → o.find Inventory v s.inventory ≡ x
      → allowed v k
      → Act k (Option.map pool_of x) (some (pool_of i'))
      → Follows o allowed s (stocked_state o v i' e s)
  stocked-Follows v x i' e s k here permit a =
      Follows-write o allowed v i' s (stocked_state o v i' e s) k refl permit
        (rw (row_at-found o v x s here) a)

  pub add_stock-Follows :
      (v q : ℕ) (reference : Option Reference) (s : State o)
      → IsSound o s
      → allowed v (Kind.established q)
      → allowed v (Kind.restocked q)
      → Follows o allowed s (add_stock o v q reference s).1
  unfolding add_stock
  add_stock-Follows v q reference s c new more =
      in_transaction-Follows o allowed (add_body o v q reference) s
        (elim (Option-cases (o.find (Unit {0}) v s.variants)) [
          | inl e ↦ rw (add_unknown o v s q reference e) (Follows-refl o allowed s)
          | inr (u, e) ↦ elim (Option-cases (o.find Inventory v s.inventory)) [
            | inl none_yet ↦ rw (add_known o v s q reference none e none_yet) (
                stocked-Follows v none (added o q none) _ s (Kind.established q) none_yet new
                  (Act.establish refl refl))
            | inr (i, here) ↦ rw (add_known o v s q reference (some i) e here) (
                stocked-Follows v (some i) (added o q (some i)) _ s (Kind.restocked q) here more (
                  Act.restock
                    (let now = counted o v i s c here in
                      ground (arith, +ℤ_parts i.available (pos q)))
                    refl))
          ]
        ])

  pub remove_stock-Follows :
      (v q : ℕ) (reference : Option Reference) (s : State o)
      → IsSound o s
      → allowed v (Kind.written_off q)
      → Follows o allowed s (remove_stock o v q reference s).1
  unfolding remove_stock
  remove_stock-Follows v q reference s c permit =
      in_transaction-Follows o allowed (remove_body o v q reference) s
        (elim (Option-cases (o.find Inventory v s.inventory)) [
          | inl e ↦ rw (remove_missing o v s q reference e) (Follows-refl o allowed s)
          | inr (i, e) ↦ elim (Bool-cases (ltb_ℤ i.available (pos q))) [
            | inl short ↦ rw (remove_short o v s q reference i e short) (Follows-refl o allowed s)
            | inr enough ↦ rw (remove_covered o v s q reference i e enough) (
                stocked-Follows v (some i) (record i { available = i.available -ℤ pos q }) _ s
                  (Kind.written_off q) e permit
                  (Act.write_off
                    (let now = counted o v i s c e in ground (arith, -ℤ_parts i.available (pos q)))
                    refl))
          ]
        ])

  pub adjust_stock-Follows :
      (v : ℕ) (a : Adjustment) (s : State o)
      → ((n : ℕ) → allowed v (Kind.audited n))
      → Follows o allowed s (adjust_stock o v a s).1
  unfolding adjust_stock
  adjust_stock-Follows v a s permit =
      in_transaction-Follows o allowed (adjust_body o v a) s
        (elim (Option-cases (o.find Inventory v s.inventory)) [
          | inl e ↦ rw (adjust_missing o v s a e) (Follows-refl o allowed s)
          | inr (i, e) ↦ rw (adjust_found o v s a i e) (
              stocked-Follows v (some i) (adjusted a i) _ s
                (Kind.audited (pos_part (adjusted a i).available)) e (permit _)
                (Act.audit refl refl))
        ])

  pub get_inventory-Follows :
      (v : ℕ) (s : State o)
      → allowed v (Kind.established 0)
      → Follows o allowed s (get_inventory o v s).1
  unfolding get_inventory
  get_inventory-Follows v s permit = elim (Option-cases (o.find (Unit {0}) v s.variants)) [
    | inl e ↦ Follows-same o allowed s (get_inventory o v s).1 (ground arith)
    | inr (u, e) ↦ elim (Option-cases (o.find Inventory v s.inventory)) [
      | inl none_yet ↦
          Follows-write o allowed v empty_level s (get_inventory o v s).1 (Kind.established 0)
            (ground arith) permit (rw (row_at-found o v none s none_yet) (Act.establish refl refl))
      | inr (i, here) ↦ Follows-same o allowed s (get_inventory o v s).1 (ground arith)
    ]
  ]
