-- ===== src/Tests/Stock.antt =====
-- The stock: two branches, a product with five units in the first one.
use nexasalon_api.Prelude.{
  arith, ◌*◌, ◌+◌, ◌≡◌, refl, true, none, some, [], ◌∷◌, Result, ok, err, sum_of,
}
use nexasalon_api.Stock.Records.{
  Stock, Product, unit, gram, kg, StockMovement, StockTransfer, out, into, purchase, sale,
  InventoryCount, opened,
}
use nexasalon_api.Stock.Units.{is_convertible, group_for, base_factor, convert_quantity}
use nexasalon_api.Stock.Units.RoundTrip.{convert_quantity-roundtrip}
use nexasalon_api.Stock.Levels.{quantity_of, lock_or_create, set_quantity}
use nexasalon_api.Stock.Movements.{
  MovementArgs, get_product_or_404, get_branch_or_404, apply_delta, insert_movement, audit,
  create_movement, insert_transfer, create_transfer, record_system_movement,
}
use nexasalon_api.Stock.Movements.Created.{IsAllowed, create_movement_iff}
use nexasalon_api.Stock.Movements.Ledger.{IsReconciled, create_movement-IsReconciled}
use nexasalon_api.Stock.Counts.{
  get_count_or_404, list_items, adjust_with, adjust, mark_closed, close_count,
}
use nexasalon_api.Stock.Counts.Closing.{close_count-adjusts, system_at, counted_at}

abbrev value : {A : Type 0} → A → Result A → A
value d (ok a) = a
value d (err e) = d

-- What the runs see through.
runs : Unit {0}
unfolding quantity_of lock_or_create set_quantity get_product_or_404 get_branch_or_404 apply_delta
    insert_movement audit create_movement insert_transfer create_transfer record_system_movement
    get_count_or_404 list_items adjust_with adjust mark_closed close_count is_convertible group_for
    base_factor
runs = tt

abbrev shampoo : Product
shampoo = record {
  id = 1;
  unit_of = unit;
  is_active = true;
  for_sale = true;
  sale_price = some 500;
  cost_price = 300;
}

abbrev bought : StockMovement
bought = record {
  id = 2;
  product_id = 1;
  branch_id = 10;
  direction = into;
  reason = purchase;
  quantity = 5000;
  unit_cost = some 300;
  created_by = 7;
  order_id = none;
  transfer_id = none;
  inventory_count_id = none;
  idempotency_key = none;
}

abbrev stock : Stock
stock = record {
  products = shampoo ∷ [];
  branches = 10 ∷ 11 ∷ [];
  levels = record { product_id = 1; branch_id = 10; quantity_on_hand = 5000 } ∷ [];
  movements = bought ∷ [];
  transfers = [];
  counts =
      record {
        id = 4;
        branch_id = 10;
        status = opened;
        created_by = 7;
        closed_at = none;
        closed_by = none;
      }
      ∷ [];
  count_items =
      record {
        inventory_count_id = 4;
        product_id = 1;
        system_quantity = 5000;
        counted_quantity = some 3000;
      }
      ∷ [];
  audit_logs = [];
  next_id = 50;
}

abbrev moved : StockTransfer × Stock
unfolding runs
moved =
    value
      (
        record {
          id = 0;
          product_id = 0;
          origin_branch_id = 0;
          destination_branch_id = 0;
          quantity = 0;
          created_by = 0;
        },
        stock,
      )
      (create_transfer 7 1 10 11 2000 stock)

abbrev counted : InventoryCount × Stock
unfolding runs
counted =
    value
      (
        record {
          id = 0;
          branch_id = 0;
          status = opened;
          created_by = 0;
          closed_at = none;
          closed_by = none;
        },
        stock,
      )
      (close_count 7 4 100 stock)

counts : close_count 7 4 100 stock ≡ ok (counted.0, counted.1)
unfolding runs
counts = refl

close_count-adjusts_example :
    quantity_of 1 10 counted.1.levels + sum_of (system_at 1) (list_items 4 stock.count_items)
    ≡ quantity_of 1 10 stock.levels + sum_of (counted_at 1) (list_items 4 stock.count_items)
unfolding counted
close_count-adjusts_example = (close_count-adjusts 7 4 100 stock counts).4 1

abbrev selling : MovementArgs
selling = record {
  product_id = 1;
  branch_id = 10;
  direction = out;
  reason = sale;
  quantity = 2000;
  rest = 0;
  unit_cost = none;
  order_id = none;
  transfer_id = none;
  inventory_count_id = none;
  idempotency_key = none;
}

selling-IsAllowed : IsAllowed selling stock
unfolding runs
selling-IsAllowed = record {
  product_known = λ h. cc;
  branch_known = λ h. cc;
  covered = refl;
  positive = λ h. ground arith;
  key_fresh = refl;
}

stock-IsReconciled : IsReconciled stock
unfolding runs
stock-IsReconciled p b = refl

create_movement-IsReconciled_example :
    IsReconciled ((create_movement_iff 7 selling stock).0 selling-IsAllowed).0
create_movement-IsReconciled_example =
    create_movement-IsReconciled 7 selling stock refl
      ((create_movement_iff 7 selling stock).0 selling-IsAllowed).1 stock-IsReconciled

grams-convert : is_convertible gram kg ≡ true
unfolding runs
grams-convert = refl

convert_quantity-roundtrip_example :
    convert_quantity (250 * 1000) gram kg
    ≡ ok (convert_quantity-roundtrip 250 gram kg grams-convert).0
convert_quantity-roundtrip_example = (convert_quantity-roundtrip 250 gram kg grams-convert).1

-- Half a gram of a product in kilograms: the balance stays, and the movement says a gram.
abbrev half_gram : StockMovement × Stock
unfolding runs
half_gram =
    value (bought, stock) (create_movement 7 (record selling { quantity = 0; rest = 500 }) stock)

rounded_apart :
    (quantity_of 1 10 half_gram.1.levels ≡ quantity_of 1 10 stock.levels)
    × (half_gram.0.quantity ≡ 1)
unfolding half_gram
rounded_apart = (refl, refl)
