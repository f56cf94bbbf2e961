-- ===== src/Stock/Movements.antt =====
-- services/stock.py: the movements and the transfer between branches. `actor` is `actor.user_id`.
-- The tables list the newest row first. `_resolve_user_name` and the observations only fill text
-- columns, which are left out.
pub mod Created
pub mod Ledger
pub mod Transfers
pub mod Shifts
use nexasalon_api.Prelude.{
  ℕ, suc, ◌+◌, ◌-◌, ◌*◌, ◌/◌, ◌%◌, leb, Bool, true, false, not, ◌&&◌, ◌||◌, Option, none, some,
  List, [], ◌∷◌, find, ltb, ◌==◌, if◌then◌else◌, Tx, Result, ok, err, Error, not_found, validation,
  integrity, pure, gets, modify, raise_if, or_raise, raise, ◌>>=◌, ◌>>◌,
}
use nexasalon_api.Stock.Records.{
  Product, ProductUnit, StockLevel, StockMovementDirection, into, out, StockMovementReason,
  purchase, return, adjustment, transfer_in, sale, internal_use, damage, transfer_out,
  StockMovement, StockTransfer, AuditLog, AuditEntity, stock_movement, stock_transfer, create,
  Stock,
}
use nexasalon_api.Stock.Records as StockRecords
use nexasalon_api.Stock.Units.{same_unit, convert_quantity}
use nexasalon_api.Stock.Levels.{rounded, quantity_of, lock_or_create, set_quantity}

-- The keyword arguments of `_create_movement`, with its defaults. The exact `Decimal` is `quantity`
-- thousandths and `rest` millionths; only a conversion leaves a rest.
pub record MovementArgs : Type 0 where
  pub product_id : ℕ
  pub branch_id : ℕ
  pub direction : StockMovementDirection
  pub reason : StockMovementReason
  pub quantity : ℕ
  pub rest : ℕ
  pub unit_cost : Option ℕ
  pub order_id : Option ℕ
  pub transfer_id : Option ℕ
  pub inventory_count_id : Option ℕ
  pub idempotency_key : Option ℕ

unfoldable pub get_product_or_404 : ℕ → Tx Stock Product
get_product_or_404 product_id s = or_raise (find (λ p. p.id == product_id) s.products) not_found s

unfoldable pub get_branch_or_404 : ℕ → Tx Stock ℕ
get_branch_or_404 branch_id s = or_raise (find (λ b. b == branch_id) s.branches) not_found s

abbrev pub is_short : StockMovementDirection → ℕ → ℕ → ℕ → Bool
is_short into on_hand quantity rest = false
is_short out on_hand quantity rest = (ltb 0 rest && leb on_hand quantity) || ltb on_hand quantity

-- What the column of the balance keeps of the sum or the difference.
abbrev pub new_quantity : StockMovementDirection → ℕ → ℕ → ℕ → ℕ
new_quantity into on_hand quantity rest = rounded (on_hand + quantity) rest
new_quantity out on_hand quantity rest =
    if ltb 500 rest then on_hand - quantity - 1 else on_hand - quantity

-- `_apply_delta`: an OUT above the balance is refused, so that no `-` is cut off at 0.
unfoldable pub apply_delta : ℕ → ℕ → StockMovementDirection → ℕ → ℕ → Tx Stock (Unit {0})
apply_delta product_id branch_id direction quantity rest s =
    let on_hand = quantity_of product_id branch_id s.levels in
    if is_short direction on_hand quantity rest
    then err validation
    else ok (
      tt,
      record s {
        levels =
            set_quantity product_id branch_id (new_quantity direction on_hand quantity rest)
              (lock_or_create product_id branch_id s.levels);
      },
    )

abbrev pub same_key : Option ℕ → StockMovement → Bool
same_key none m = false
same_key (some k) m = elim m.idempotency_key [ none ↦ false | some j ↦ j == k ]

-- `stock_movement_repo.get_by_idempotency_key`
unfoldable pub get_by_idempotency_key : Option ℕ → List StockMovement → Option StockMovement
get_by_idempotency_key key ms = find (same_key key) ms

abbrev pub has_key : Option ℕ → List StockMovement → Bool
has_key key ms = elim (find (same_key key) ms) [ none ↦ false | some _ ↦ true ]

abbrev pub movement_row : ℕ → MovementArgs → ℕ → StockMovement
movement_row actor d id = record {
  id = id;
  product_id = d.product_id;
  branch_id = d.branch_id;
  direction = d.direction;
  reason = d.reason;
  quantity = rounded d.quantity d.rest;
  unit_cost = d.unit_cost;
  created_by = actor;
  order_id = d.order_id;
  transfer_id = d.transfer_id;
  inventory_count_id = d.inventory_count_id;
  idempotency_key = d.idempotency_key;
}

-- `stock_movement_repo.create`, with the constraints of the table: `quantity > 0`, and the unique
-- partial index on `idempotency_key`.
unfoldable pub insert_movement : ℕ → MovementArgs → Tx Stock StockMovement
insert_movement actor d s =
    if rounded d.quantity d.rest == 0 || has_key d.idempotency_key s.movements
    then err integrity
    else ok (
      movement_row actor d s.next_id,
      record s {
        movements = movement_row actor d s.next_id ∷ s.movements;
        next_id = suc s.next_id;
      },
    )

unfoldable pub audit : ℕ → AuditEntity → ℕ → StockRecords.AuditAction → Tx Stock (Unit {0})
audit actor entity id action s = ok (
  tt,
  record s {
    audit_logs =
        record { entity_type = entity; entity_id = id; action = action; user_id = actor }
        ∷ s.audit_logs;
  },
)

-- `_create_movement`
unfoldable pub create_movement : ℕ → MovementArgs → Tx Stock StockMovement
create_movement actor d = do
  product ← get_product_or_404 d.product_id
  branch ← get_branch_or_404 d.branch_id
  apply_delta d.product_id d.branch_id d.direction d.quantity d.rest
  movement ← insert_movement actor d
  audit actor stock_movement movement.id create
  pure movement

-- From thousandths to millionths.
unfoldable pub resolve_quantity_in_product_unit : ℕ → ℕ → Option ProductUnit → Tx Stock ℕ
resolve_quantity_in_product_unit product_id quantity none = pure (quantity * 1000)
resolve_quantity_in_product_unit product_id quantity (some input_unit) = do
  product ← get_product_or_404 product_id
  let converted = convert_quantity (quantity * 1000) input_unit product.unit_of
  if same_unit input_unit product.unit_of then pure (quantity * 1000) else λ s. elim converted [
    | ok q ↦ ok (q, s)
    | err e ↦ err e
  ]

-- `MANUAL_REASONS_BY_DIRECTION` of schemas/stock.py
unfoldable pub is_manual_reason : StockMovementDirection → StockMovementReason → Bool
is_manual_reason into purchase = true
is_manual_reason into return = true
is_manual_reason into adjustment = true
is_manual_reason out sale = true
is_manual_reason out internal_use = true
is_manual_reason out damage = true
is_manual_reason out adjustment = true
is_manual_reason _ _ = false

-- `record_movement`; the fields of `d` that it does not take are at their defaults.
unfoldable pub record_movement : ℕ → MovementArgs → Option ProductUnit → Tx Stock StockMovement
record_movement actor d input_unit = do
  product ← get_product_or_404 d.product_id
  raise_if (not product.is_active) validation
  raise_if (not (is_manual_reason d.direction d.reason)) validation
  quantity ← resolve_quantity_in_product_unit d.product_id d.quantity input_unit
  create_movement actor (record d {
    quantity = quantity / 1000;
    rest = quantity % 1000;
    order_id = none;
    transfer_id = none;
    inventory_count_id = none;
    idempotency_key = none;
  })

-- `record_system_movement`
unfoldable pub record_system_movement :
    ℕ → ℕ → ℕ → StockMovementDirection → StockMovementReason → ℕ → Option ℕ → Tx Stock StockMovement
record_system_movement actor product_id branch_id direction reason quantity inventory_count_id =
    create_movement actor (record {
      product_id = product_id;
      branch_id = branch_id;
      direction = direction;
      reason = reason;
      quantity = quantity;
      rest = 0;
      unit_cost = none;
      order_id = none;
      transfer_id = none;
      inventory_count_id = inventory_count_id;
      idempotency_key = none;
    })

-- `record_sale_movement` and `record_internal_use_movement`, by their reason.
abbrev pub out_for_order :
    StockMovementReason → ℕ → ℕ → ℕ → ℕ → ℕ → Option ℕ → Tx Stock StockMovement
out_for_order reason actor product_id branch_id quantity order_id unit_cost =
    create_movement actor (record {
      product_id = product_id;
      branch_id = branch_id;
      direction = out;
      reason = reason;
      quantity = quantity;
      rest = 0;
      unit_cost = unit_cost;
      order_id = some order_id;
      transfer_id = none;
      inventory_count_id = none;
      idempotency_key = none;
    })

unfoldable pub record_sale_movement : ℕ → ℕ → ℕ → ℕ → ℕ → Option ℕ → Tx Stock StockMovement
record_sale_movement = out_for_order sale

unfoldable pub record_internal_use_movement : ℕ → ℕ → ℕ → ℕ → ℕ → Option ℕ → Tx Stock StockMovement
record_internal_use_movement = out_for_order internal_use

-- `record_consumption_correction`
unfoldable pub record_consumption_correction :
    ℕ → ℕ → ℕ → ℕ → ℕ → StockMovementDirection → ℕ → Tx Stock StockMovement
record_consumption_correction actor product_id branch_id order_id quantity direction
      idempotency_key =
    create_movement actor (record {
      product_id = product_id;
      branch_id = branch_id;
      direction = direction;
      reason = adjustment;
      quantity = quantity;
      rest = 0;
      unit_cost = none;
      order_id = some order_id;
      transfer_id = none;
      inventory_count_id = none;
      idempotency_key = some idempotency_key;
    })

-- One of the two movements of a transfer.
abbrev pub transfer_leg :
    ℕ → ℕ → ℕ → StockMovementDirection → StockMovementReason → ℕ → ℕ → Tx Stock StockMovement
transfer_leg actor product_id branch_id direction reason quantity transfer_id =
    create_movement actor (record {
      product_id = product_id;
      branch_id = branch_id;
      direction = direction;
      reason = reason;
      quantity = quantity;
      rest = 0;
      unit_cost = none;
      order_id = none;
      transfer_id = some transfer_id;
      inventory_count_id = none;
      idempotency_key = none;
    })

-- `stock_transfer_repo.create`, with the constraints of the table.
unfoldable pub insert_transfer : ℕ → ℕ → ℕ → ℕ → ℕ → Tx Stock StockTransfer
insert_transfer actor product_id origin destination quantity s =
    let row : StockTransfer = record {
      id = s.next_id;
      product_id = product_id;
      origin_branch_id = origin;
      destination_branch_id = destination;
      quantity = quantity;
      created_by = actor;
    } in
    if quantity == 0 || origin == destination
    then err integrity
    else ok (row, record s { transfers = row ∷ s.transfers; next_id = suc s.next_id })

unfoldable pub create_transfer : ℕ → ℕ → ℕ → ℕ → ℕ → Tx Stock StockTransfer
create_transfer actor product_id origin destination quantity = do
  product ← get_product_or_404 product_id
  raise_if (not product.is_active) validation
  origin_branch ← get_branch_or_404 origin
  destination_branch ← get_branch_or_404 destination
  raise_if (origin == destination) validation
  transfer ← insert_transfer actor product_id origin destination quantity
  sent ← transfer_leg actor product_id origin out transfer_out quantity transfer.id
  received ← transfer_leg actor product_id destination into transfer_in quantity transfer.id
  audit actor stock_transfer transfer.id create
  pure transfer
