-- ===== src/Inventory/Levels.antt =====
-- `src/modules/inventory/services/stock.service.ts`.
use meeo_server.Base.{ℕ, Option, some, none, Bool, false}
use meeo_server.Base.Int.{ℤ, pos, ◌+ℤ◌, ◌-ℤ◌, ltb_ℤ, leb_ℤ}
use meeo_server.Base.Result.{ok, ◌>>=◌, ◌>>◌, pure, raise_if, or_raise, gets}
use meeo_server.Orm.{Orm}
use meeo_server.Store.{
  Inventory, LedgerKind, LedgerEntry, Reference, Service, Error, update_inventory, log_stock,
  in_transaction,
}

abbrev pub empty_level : Inventory
empty_level = record { available = pos 0; reserved = pos 0; reorder_level = some 5 }

-- `reorderLevel !== null ? availableQuantity <= reorderLevel : false`
abbrev pub is_low : Inventory → Bool
is_low i = elim i.reorder_level [ none ↦ false | some n ↦ leb_ℤ i.available (pos n) ]

pub record Level : Type 0 where
  pub inventory : Inventory
  pub total_stock : ℤ
  pub low_stock : Bool

abbrev pub level_of : Inventory → Level
level_of i = record { inventory = i; total_stock = i.available +ℤ i.reserved; low_stock = is_low i }

-- `referenceType ?? …`
abbrev pub reference_or : Option Reference → Reference → Reference
reference_or none d = d
reference_or (some r) d = r

-- The fields that an adjustment gives: `reorderLevel` may be absent, null or a number.
pub record Adjustment : Type 0 where
  pub available : Option ℕ
  pub reorder_level : Option (Option ℕ)

abbrev pub adjusted : Adjustment → Inventory → Inventory
adjusted a i = record {
  available = elim a.available [ none ↦ i.available | some n ↦ pos n ];
  reserved = i.reserved;
  reorder_level = elim a.reorder_level [ none ↦ i.reorder_level | some l ↦ l ];
}

abbrev pub delta_of : Adjustment → Inventory → ℤ
delta_of a i = elim a.available [ none ↦ pos 0 | some n ↦ pos n -ℤ i.available ]

module _ (o : Orm) where
  create_inventory : ℕ → Inventory → Service o Inventory
  create_inventory v i s = (ok i, record s { inventory = o.write Inventory v i s.inventory })

  unfoldable pub get_inventory : ℕ → Service o Level
  unfolding create_inventory
  get_inventory v = do
    or_raise (← gets (λ s. o.find (Unit {0}) v s.variants)) Error.variant_not_found
    found ← gets (λ s. o.find Inventory v s.inventory)
    i ← elim found [ none ↦ create_inventory v empty_level | some i ↦ pure i ]
    pure (level_of i)

  -- `upsert`
  upsert_inventory : ℕ → Inventory → (Inventory → Inventory) → Service o Inventory
  unfolding create_inventory
  upsert_inventory v i f = do
    found ← gets (λ s. o.find Inventory v s.inventory)
    elim found [ none ↦ create_inventory v i | some _ ↦ update_inventory o v f ]

  unfoldable pub add_body : ℕ → ℕ → Option Reference → Service o (Inventory × LedgerEntry)
  unfolding upsert_inventory
  add_body v q reference = do
    or_raise (← gets (λ s. o.find (Unit {0}) v s.variants)) Error.variant_not_found
    i ←
        upsert_inventory v (record empty_level { available = pos q })
          (λ x. record x { available = x.available +ℤ pos q })
    e ← log_stock o (record {
      variant = v;
      kind = LedgerKind.stock_added;
      quantity = pos q;
      reference = reference_or reference Reference.restock;
    })
    pure (i, e)

  unfoldable pub add_stock : ℕ → ℕ → Option Reference → Service o (Inventory × LedgerEntry)
  add_stock v q reference = in_transaction o (add_body v q reference)

  unfoldable pub remove_body : ℕ → ℕ → Option Reference → Service o (Inventory × LedgerEntry)
  remove_body v q reference = do
    i ← or_raise (← gets (λ s. o.find Inventory v s.inventory)) Error.inventory_not_found
    raise_if (ltb_ℤ i.available (pos q)) Error.insufficient_stock
    i' ← update_inventory o v (λ x. record x { available = x.available -ℤ pos q })
    e ← log_stock o (record {
      variant = v;
      kind = LedgerKind.stock_removed;
      quantity = pos q;
      reference = reference_or reference Reference.write_off;
    })
    pure (i', e)

  unfoldable pub remove_stock : ℕ → ℕ → Option Reference → Service o (Inventory × LedgerEntry)
  remove_stock v q reference = in_transaction o (remove_body v q reference)

  unfoldable pub adjust_body : ℕ → Adjustment → Service o (Inventory × LedgerEntry)
  adjust_body v a = do
    i ← or_raise (← gets (λ s. o.find Inventory v s.inventory)) Error.inventory_not_found
    i' ← update_inventory o v (adjusted a)
    e ← log_stock o (record {
      variant = v;
      kind = LedgerKind.manual_adjustment;
      quantity = delta_of a i;
      reference = Reference.manual_audit;
    })
    pure (i', e)

  unfoldable pub adjust_stock : ℕ → Adjustment → Service o (Inventory × LedgerEntry)
  adjust_stock v a = in_transaction o (adjust_body v a)
