-- ===== src/Store/Stock.antt =====
-- Rows of the inventory tables: `prisma/schema/Inventory`. Quantities are signed, since the columns
-- are; a row of `Inventory` is kept under its unique `variantId`.
use meeo_server.Base.{ℕ, Bool, true, false, Option}
use meeo_server.Base.Int.{ℤ}

pub record Inventory : Type 0 where
  pub available : ℤ
  pub reserved : ℤ
  pub reorder_level : Option ℕ

pub data ReservationStatus : Type 0 where
  active confirmed released expired : ReservationStatus

pub record Reservation : Type 0 where
  pub variant : ℕ
  pub order : Option ℕ
  pub quantity : ℕ
  pub status : ReservationStatus
  pub expires_at : ℕ

abbrev pub is_active : ReservationStatus → Bool
is_active ReservationStatus.active = true
is_active ReservationStatus.confirmed = false
is_active ReservationStatus.released = false
is_active ReservationStatus.expired = false

pub data LedgerKind : Type 0 where
  stock_added stock_removed order_reserved order_confirmed order_cancelled : LedgerKind
  returned manual_adjustment : LedgerKind

-- `referenceType` with `referenceId`; `other` is what a caller gave.
pub data Reference : Type 0 where
  reservation order : ℕ → Reference
  restock write_off manual_audit : Reference
  other : ℕ → Reference

-- A row of `InventoryTransaction`, without its note.
pub record LedgerEntry : Type 0 where
  pub variant : ℕ
  pub kind : LedgerKind
  pub quantity : ℤ
  pub reference : Reference
