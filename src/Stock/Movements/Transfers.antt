-- ===== src/Stock/Movements/Transfers.antt =====
-- The transfer between two branches as a whole.
use nexasalon_api.Prelude.{ℕ, suc, none, some, ◌∷◌}
use nexasalon_api.Stock.Records.{
  Stock, StockTransfer, StockMovementDirection, into, out, transfer_in, transfer_out,
  stock_transfer, create,
}
use nexasalon_api.Stock.Movements.{MovementArgs}
use nexasalon_api.Stock.Movements.Created.{after}

abbrev transfer_row : ℕ → ℕ → ℕ → ℕ → ℕ → ℕ → StockTransfer
transfer_row actor p origin destination q id = record {
  id = id;
  product_id = p;
  origin_branch_id = origin;
  destination_branch_id = destination;
  quantity = q;
  created_by = actor;
}

abbrev leg : ℕ → ℕ → StockMovementDirection → ℕ → ℕ → MovementArgs
leg p b into q id = record {
  product_id = p;
  branch_id = b;
  direction = into;
  reason = transfer_in;
  quantity = q;
  rest = 0;
  unit_cost = none;
  order_id = none;
  transfer_id = some id;
  inventory_count_id = none;
  idempotency_key = none;
}
leg p b out q id = record {
  product_id = p;
  branch_id = b;
  direction = out;
  reason = transfer_out;
  quantity = q;
  rest = 0;
  unit_cost = none;
  order_id = none;
  transfer_id = some id;
  inventory_count_id = none;
  idempotency_key = none;
}

-- The stock with the transfer's row, after the goods left, and after they came in.
abbrev opened : ℕ → ℕ → ℕ → ℕ → ℕ → Stock → Stock
opened actor p a b q s = record s {
  transfers = transfer_row actor p a b q s.next_id ∷ s.transfers;
  next_id = suc s.next_id;
}

abbrev sent : ℕ → ℕ → ℕ → ℕ → ℕ → Stock → Stock
sent actor p a b q s = after actor (leg p a out q s.next_id) (opened actor p a b q s)

abbrev received : ℕ → ℕ → ℕ → ℕ → ℕ → Stock → Stock
received actor p a b q s = after actor (leg p b into q s.next_id) (sent actor p a b q s)

abbrev logged : ℕ → ℕ → Stock → Stock
logged actor id s = record s {
  audit_logs =
      record { entity_type = stock_transfer; entity_id = id; action = create; user_id = actor }
      ∷ s.audit_logs;
}
