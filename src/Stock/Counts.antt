-- ===== src/Stock/Counts.antt =====
-- services/inventory_counts.py: counting the stock of one branch, and what closing a count adjusts.
-- The items of a count stand in the order in which they were added, the products in the order of
-- `product_repo.list_all`. The notes and the counter's name are left out.
pub mod Closing
use nexasalon_api.Prelude.{
  ℕ, suc, ◌-◌, Bool, true, false, not, ◌&&◌, Option, none, some, List, [], ◌∷◌, ◌++◌, map, filter,
  find, ltb, ◌==◌, if◌then◌else◌, Tx, ok, not_found, conflict, validation, pure, gets, modify,
  raise_if, or_raise, each, ◌>>=◌, ◌>>◌,
}
use nexasalon_api.Stock.Records.{
  Product, InventoryCount, InventoryCountItem, InventoryCountStatus, opened, closed, into, out,
  inventory_count, create, update, Stock, StockMovementReason,
}
use nexasalon_api.Stock.Records as StockRecords
use nexasalon_api.Stock.Levels.{quantity_of}
use nexasalon_api.Stock.Movements.{audit, get_branch_or_404, record_system_movement}

abbrev pub is_open : InventoryCount → Bool
is_open c = elim c.status [ opened ↦ true | closed ↦ false ]

-- `inventory_count_repo.get_open_for_branch`
unfoldable pub get_open_for_branch : ℕ → List InventoryCount → Option InventoryCount
get_open_for_branch branch_id cs = find (λ c. c.branch_id == branch_id && is_open c) cs

unfoldable pub get_count_or_404 : ℕ → Tx Stock InventoryCount
get_count_or_404 count_id s = or_raise (find (λ c. c.id == count_id) s.counts) not_found s

-- `inventory_count_repo.create`
unfoldable pub insert_count : ℕ → ℕ → Tx Stock InventoryCount
insert_count actor branch_id s =
    let row : InventoryCount = record {
      id = s.next_id;
      branch_id = branch_id;
      status = opened;
      created_by = actor;
      closed_at = none;
      closed_by = none;
    } in
    ok (row, record s { counts = row ∷ s.counts; next_id = suc s.next_id })

-- `inventory_count_repo.add_item`
unfoldable pub add_item : ℕ → ℕ → Product → Tx Stock (Unit {0})
add_item count_id branch_id product s = ok (
  tt,
  record s {
    count_items =
        s.count_items
        ++ record {
          inventory_count_id = count_id;
          product_id = product.id;
          system_quantity = quantity_of product.id branch_id s.levels;
          counted_quantity = none;
        }
          ∷ [];
  },
)

unfoldable pub open_count : ℕ → ℕ → Tx Stock InventoryCount
open_count actor branch_id = do
  branch ← get_branch_or_404 branch_id
  existing ← gets (λ s. get_open_for_branch branch_id s.counts)
  raise_if (elim existing [ none ↦ false | some _ ↦ true ]) conflict
  count ← insert_count actor branch_id
  products ← gets (λ s. filter (λ p. p.is_active) s.products)
  each (add_item count.id branch_id) products
  audit actor StockRecords.AuditEntity.inventory_count count.id create
  pure count

abbrev pub is_item : ℕ → ℕ → InventoryCountItem → Bool
is_item count_id product_id i = i.inventory_count_id == count_id && i.product_id == product_id

-- `item.counted_quantity = ...` on the row.
abbrev pub count_item : ℕ → ℕ → Option ℕ → List InventoryCountItem → List InventoryCountItem
count_item count_id product_id counted [] = []
count_item count_id product_id counted (i ∷ is) =
    if is_item count_id product_id i
    then record i { counted_quantity = counted } ∷ is
    else i ∷ count_item count_id product_id counted is

unfoldable pub set_item_count : ℕ → ℕ → Option ℕ → Tx Stock InventoryCountItem
set_item_count count_id product_id counted = do
  count ← get_count_or_404 count_id
  raise_if (not (is_open count)) validation
  item ← λ s. or_raise (find (is_item count_id product_id) s.count_items) not_found s
  modify (λ s. record s { count_items = count_item count_id product_id counted s.count_items })
  pure (record item { counted_quantity = counted })

unfoldable pub list_items : ℕ → List InventoryCountItem → List InventoryCountItem
list_items count_id is = filter (λ i. i.inventory_count_id == count_id) is

abbrev pub is_uncounted : InventoryCountItem → Bool
is_uncounted i = elim i.counted_quantity [ none ↦ true | some _ ↦ false ]

abbrev pub has_uncounted : List InventoryCountItem → Bool
has_uncounted is = elim (find is_uncounted is) [ none ↦ false | some _ ↦ true ]

-- The body of the loop of `close_count`; an item without a count does not get there.
unfoldable pub adjust_with : ℕ → InventoryCount → ℕ → ℕ → ℕ → Tx Stock (Unit {0})
adjust_with actor count product_id system counted =
    if counted == system
    then pure tt
    else if ltb system counted
    then record_system_movement actor product_id count.branch_id into
        StockMovementReason.inventory_count (counted - system) (some count.id)
      >>= (λ _. pure tt)
    else record_system_movement actor product_id count.branch_id out
        StockMovementReason.inventory_count (system - counted) (some count.id)
      >>= (λ _. pure tt)

unfoldable pub adjust : ℕ → InventoryCount → InventoryCountItem → Tx Stock (Unit {0})
adjust actor count i = elim i.counted_quantity [
  | none ↦ pure tt
  | some counted ↦ adjust_with actor count i.product_id i.system_quantity counted
]

-- `inventory_count_repo.close`
unfoldable pub mark_closed : ℕ → ℕ → ℕ → List InventoryCount → List InventoryCount
mark_closed count_id actor now [] = []
mark_closed count_id actor now (c ∷ cs) =
    if c.id == count_id
    then record c { status = closed; closed_at = some now; closed_by = some actor } ∷ cs
    else c ∷ mark_closed count_id actor now cs

unfoldable pub close_count : ℕ → ℕ → ℕ → Tx Stock InventoryCount
close_count actor count_id now = do
  count ← get_count_or_404 count_id
  raise_if (not (is_open count)) conflict
  items ← gets (λ s. list_items count_id s.count_items)
  raise_if (has_uncounted items) validation
  each (adjust actor count) items
  modify (λ s. record s { counts = mark_closed count_id actor now s.counts })
  audit actor StockRecords.AuditEntity.inventory_count count_id update
  pure (record count { status = closed; closed_at = some now; closed_by = some actor })
