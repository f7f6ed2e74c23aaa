-- ===== src/Erp.antt =====
-- MemoryErpRepository (server/src/repositories/memory.ts): variants, warehouses, balances and the
-- ledger of their movements. A quantity is an exact number with at most twelve digits after the
-- point, so the errors of floating point are not modelled; what round2 rounds away is. Weights,
-- amounts of money and the names that the answers show are left out.
pub mod Documents
pub mod Rounding
pub mod Lines
pub mod Creation
pub mod Ledger
pub mod Stock
pub mod Shortage
use Prim.Native.String.{String}
use hanmir_talk.Prelude.{
  ℕ, zero, suc, ◌+◌, ◌-◌, ◌*◌, ◌/◌, ◌≤◌, ◌<◌, ◌≡◌, refl, sym, ap, ◌∙◌, ◌≢◌, ◌⊎◌, inl, inr, Bool,
  true, false, not, ◌&&◌, ◌||◌, Option, none, some, List, [], ◌∷◌, ◌++◌, map, arith, ltb, leb, ◌==◌,
  if◌then◌else◌, Bool-cases, Option-cases, length, take, drop, All, find, any, filter, modify,
  remove, count, find_by, has_by, modify_by, remove_by, Fresh, Distinct, is_some, or_else,
  or_option, option_map, option_bind, Ident, given, given_id, sort, first, last, sum_of, max, min,
  lookup, insert, delete, member, add, drop_member, Flags, has_flag, set_flag, clear_flag,
  users_with, clear_all, IsMap, TextOps, deduped,
}

pub record Variant : Type 0 where
  pub id : Ident
  pub product_id : Ident
  pub code : String
  pub name : String
  pub unit_label : String
  pub sort_order : ℕ
  pub is_active : Bool
  pub created_at : ℕ
  pub updated_at : ℕ

pub record Warehouse : Type 0 where
  pub id : Ident
  pub code : String
  pub name : String
  pub is_active : Bool
  pub created_at : ℕ
  pub updated_at : ℕ

-- A number that may be negative: `up - down`, in units of 1 / 10 ^ 12.
pub record Quantity : Type 0 where
  pub up : ℕ
  pub down : ℕ

pub record Balance : Type 0 where
  pub variant_id : Ident
  pub warehouse_id : Ident
  pub quantity : Quantity
  pub updated_at : ℕ

pub data Direction : Type 0 where
  in_ out adjust cancel : Direction

pub data Source : Type 0 where
  from_import : Source
  from_document : Ident → Source
  from_cancel : Ident → Source

pub record Transaction : Type 0 where
  pub product_id : Ident
  pub variant_id : Ident
  pub warehouse_id : Ident
  pub direction : Direction
  pub quantity : Quantity
  pub unit_label : String
  pub source : Source
  pub note : Option String
  pub created_by : Ident
  pub created_at : ℕ

pub data DocumentType : Type 0 where
  use_ sale : DocumentType

pub record Line : Type 0 where
  pub line_no : ℕ
  pub product_id : Option Ident
  pub variant_id : Option Ident
  pub warehouse_id : Option Ident
  pub item_name : String
  pub quantity : Quantity
  pub note : Option String

pub record Document : Type 0 where
  pub id : Ident
  pub document_no : DocumentType × ℕ
  pub document_type : DocumentType
  pub is_cancelled : Bool
  pub document_date : ℕ
  pub customer_name : Option String
  pub warehouse_id : Option Ident
  pub note : Option String
  pub created_by : Ident
  pub created_at : ℕ
  pub updated_at : ℕ
  pub cancelled_at : Option ℕ
  pub lines : List Line

pub record Erp : Type 0 where
  pub variants : List Variant
  pub warehouses : List Warehouse
  pub balances : List Balance
  pub transactions : List Transaction
  pub documents : List Document
  pub doc_seq : ℕ

abbrev pub variant_id_of : Variant → Ident
variant_id_of v = v.id

abbrev pub warehouse_id_of : Warehouse → Ident
warehouse_id_of w = w.id

abbrev pub document_id : Document → Ident
document_id d = d.id

abbrev of_product : Ident → Variant → Bool
of_product product v = v.product_id == product

unfoldable list_variants : Ident → Erp → List Variant
unfolding sort
list_variants product s =
    sort (λ (a b : Variant). leb a.sort_order b.sort_order) (filter (of_product product) s.variants)

unfoldable find_variant_by_id : Ident → Erp → Option Variant
find_variant_by_id id s = find_by variant_id_of id s.variants

pub record VariantInput : Type 0 where
  pub code : String
  pub name : String
  pub unit_label : String
  pub sort_order : Option ℕ
  pub is_active : Option Bool

unfoldable pub create_variant : Ident → ℕ → Ident → VariantInput → Erp → Erp × Variant
create_variant id now product input s =
    (record s { variants = s.variants ++ variant ∷ [] }, variant)
  where
    variant : Variant
    variant = record {
      id = id;
      product_id = product;
      code = input.code;
      name = input.name;
      unit_label = input.unit_label;
      sort_order = or_else input.sort_order (count (of_product product) s.variants);
      is_active = or_else input.is_active true;
      created_at = now;
      updated_at = now;
    }

pub record VariantPatch : Type 0 where
  pub code : Option String
  pub name : Option String
  pub unit_label : Option String
  pub sort_order : Option ℕ
  pub is_active : Option Bool

abbrev patch_variant : ℕ → VariantPatch → Variant → Variant
patch_variant now p v = record v {
  code = or_else p.code v.code;
  name = or_else p.name v.name;
  unit_label = or_else p.unit_label v.unit_label;
  sort_order = or_else p.sort_order v.sort_order;
  is_active = or_else p.is_active v.is_active;
  updated_at = now;
}

unfoldable pub update_variant : ℕ → Ident → VariantPatch → Erp → Erp × Option Variant
unfolding find_variant_by_id
update_variant now id p s = (
  record s { variants = modify_by variant_id_of id (patch_variant now p) s.variants },
  option_map (patch_variant now p) (find_variant_by_id id s),
)

unfoldable find_warehouse_by_id : Ident → Erp → Option Warehouse
find_warehouse_by_id id s = find_by warehouse_id_of id s.warehouses

unfoldable pub create_warehouse : Ident → ℕ → String → String → Option Bool → Erp → Erp × Warehouse
create_warehouse id now code name active s =
    (record s { warehouses = s.warehouses ++ warehouse ∷ [] }, warehouse)
  where
    warehouse : Warehouse
    warehouse = record {
      id = id;
      code = code;
      name = name;
      is_active = or_else active true;
      created_at = now;
      updated_at = now;
    }

abbrev patch_warehouse : ℕ → Option String → Option String → Option Bool → Warehouse → Warehouse
patch_warehouse now code name active w = record w {
  code = or_else code w.code;
  name = or_else name w.name;
  is_active = or_else active w.is_active;
  updated_at = now;
}

unfoldable pub update_warehouse :
    ℕ → Ident → Option String → Option String → Option Bool → Erp → Erp × Option Warehouse
unfolding find_warehouse_by_id
update_warehouse now id code name active s = (
  record s {
    warehouses = modify_by warehouse_id_of id (patch_warehouse now code name active) s.warehouses;
  },
  option_map (patch_warehouse now code name active) (find_warehouse_by_id id s),
)

abbrev no_quantity : Quantity
no_quantity = record { up = 0; down = 0 }

abbrev pub plus : Quantity → Quantity → Quantity
plus a b = record { up = a.up + b.up; down = a.down + b.down }

-- One hundredth, and half of it.
abbrev pub hundredth : ℕ
hundredth = 10000000000

abbrev pub half : ℕ
half = 5000000000

-- The nearest number of hundredths, the upper one of two (Math.round). Number.EPSILON, which
-- `round2` adds against errors of floating point, is smaller than the unit.
unfoldable pub round2 : Quantity → Quantity
round2 q =
    if leb q.down (q.up + half)
    then record { up = (q.up + half - q.down) / hundredth * hundredth; down = 0 }
    else record { up = 0; down = (q.down - half - q.up + (hundredth - 1)) / hundredth * hundredth }

abbrev pub is_at : Ident → Ident → Balance → Bool
is_at variant warehouse b = b.variant_id == variant && b.warehouse_id == warehouse

-- A missing balance is made at zero, then changed like one that is there.
unfoldable pub change_balance :
    Ident → Ident → (Quantity → Quantity) → ℕ → List Balance → List Balance
change_balance variant warehouse change now [] =
    record {
      variant_id = variant;
      warehouse_id = warehouse;
      quantity = change no_quantity;
      updated_at = now;
    }
    ∷ []
change_balance variant warehouse change now (b ∷ bs) =
    if is_at variant warehouse b
    then record b { quantity = change b.quantity; updated_at = now } ∷ bs
    else b ∷ change_balance variant warehouse change now bs

unfoldable pub apply_balance_delta : Ident → Ident → Quantity → ℕ → List Balance → List Balance
unfolding change_balance round2
apply_balance_delta variant warehouse delta now bs =
    change_balance variant warehouse (λ q. round2 (plus q delta)) now bs

unfoldable pub available_qty : Ident → Ident → List Balance → Quantity
available_qty variant warehouse bs =
    or_else (option_map (λ (b : Balance). b.quantity) (find (is_at variant warehouse) bs))
      no_quantity

-- A change of a balance with its entry in the ledger.
unfoldable pub post : Quantity → Transaction → Erp → Erp
unfolding apply_balance_delta
post delta t s = record s {
  balances = apply_balance_delta t.variant_id t.warehouse_id delta t.created_at s.balances;
  transactions = s.transactions ++ t ∷ [];
}

pub record AdjustmentRow : Type 0 where
  pub variant_id : Ident
  pub warehouse_id : Ident
  pub direction : Option Direction
  pub quantity : Quantity
  pub note : Option String

abbrev pub import_entry : ℕ → Ident → AdjustmentRow → Variant → Transaction
import_entry now actor row v = record {
  product_id = v.product_id;
  variant_id = row.variant_id;
  warehouse_id = row.warehouse_id;
  direction = or_else row.direction adjust;
  quantity = row.quantity;
  unit_label = v.unit_label;
  source = from_import;
  note = row.note;
  created_by = actor;
  created_at = now;
}

-- One turn of the loop in importInventory: the state, and whether the row was applied.
unfoldable pub import_row : ℕ → Ident → AdjustmentRow → Erp → Erp × Bool
unfolding post
import_row now actor row s = elim (find_by variant_id_of row.variant_id s.variants) [
  | none ↦ (s, false)
  | some v ↦
      if has_by warehouse_id_of row.warehouse_id s.warehouses
      then (post row.quantity (import_entry now actor row v) s, true)
      else (s, false)
]

-- The state, and how many rows were applied.
unfoldable pub import_inventory : ℕ → Ident → List AdjustmentRow → Erp → Erp × ℕ
unfolding import_row
import_inventory now actor [] s = (s, 0)
import_inventory now actor (row ∷ rows) s = (
  (import_inventory now actor rows (import_row now actor row s).0).0,
  (if (import_row now actor row s).1 then 1 else 0)
      + (import_inventory now actor rows (import_row now actor row s).0).1,
)

-- The variants of the product if one is asked for, and the warehouse likewise.
unfoldable list_inventory : Option Ident → Option Ident → Erp → List Balance
unfolding member
list_inventory product warehouse s =
    filter
      (λ (b : Balance).
        elim (given_id product) [
          | none ↦ true
          | some k ↦ has_by variant_id_of b.variant_id (filter (of_product k) s.variants)
        ]
        && elim (given_id warehouse) [ none ↦ true | some k ↦ b.warehouse_id == k ])
      s.balances
