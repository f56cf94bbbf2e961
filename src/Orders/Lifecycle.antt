-- ===== src/Orders/Lifecycle.antt =====
-- services/orders.py: closing, cancelling and reopening an order. Closing and reopening change the
-- order's row at several places of the transaction; here the row is written once, at the end, as
-- nothing that they call in between reads it.
pub mod Goods
pub mod Closing
pub mod Reopening
pub mod Properties
pub mod Undone
use nexasalon_api.Prelude.{
  ℕ, suc, ◌-◌, Bool, true, false, not, Option, none, some, List, [], ◌∷◌, ◌++◌, map, find, filter,
  ltb, ◌==◌, if◌then◌else◌, Tx, Result, ok, err, Error, conflict, validation, integrity, pure, gets,
  raise_if, or_raise, each, collect, ◌>>=◌, ◌>>◌,
}
use nexasalon_api.Stock.Records.{Stock, Product, StockMovement, into}
use nexasalon_api.Stock.Movements.{
  record_sale_movement, record_internal_use_movement, record_consumption_correction,
}
use nexasalon_api.Payments.Fees.{resolve_fee}
use nexasalon_api.Payments.Commissions.{ProfessionalService, resolve_commission}
use nexasalon_api.Orders.Records.{
  Db, Order, OrderStatus, opened, closed, cancelled, OrderItem, OrderProductItem,
  OrderProductItemKind, sale, consumption, Payment, PaymentCreate, OrderClose, Clock, order,
  payment, order_product_item, update,
}
use nexasalon_api.Orders.Totals.{cents, order_charged_total}
use nexasalon_api.Orders.Store.{
  in_stock, get_order_for_update_or_404, save_order, audit, is_open, is_closed, mark_paid,
  cancel_appointment_for_order_cancel, demote_appointment_from_paid_for_order_reopen,
}
use nexasalon_api.Orders.Registers as Registers
use nexasalon_api.Orders.Registers.{
  Purpose, for_payment, assert_operational_prerequisites, assert_register_open_and_in_org,
  get_register,
}

-- The loop of `close_order` over the payments: what is left of the balance, or none where a payment
-- is above it.
unfoldable pub settle : List PaymentCreate → ℕ → Option ℕ
settle [] saldo = some saldo
settle (p ∷ ps) saldo =
    let rest = settle ps (saldo - cents p.amount) in
    if ltb saldo (cents p.amount) then none else rest

abbrev pub cost_of : Option Product → Option ℕ
cost_of none = none
cost_of (some p) = some p.cost_price

abbrev pub out_movement :
    OrderProductItemKind → ℕ → ℕ → ℕ → ℕ → ℕ → Option ℕ → Tx Stock StockMovement
out_movement sale = record_sale_movement
out_movement consumption = record_internal_use_movement

-- The stock movement of one product item, by its `stock_movement_id`.
unfoldable pub write_off_by : Option ℕ → ℕ → Order → OrderProductItem → Tx Db OrderProductItem
write_off_by (some _) actor o item = pure item
write_off_by none actor o item = do
  product ← gets (λ s. find (λ p. p.id == item.product_id) s.stock.products)
  movement ← in_stock (
      out_movement item.item_type actor item.product_id o.branch_id item.quantity o.id
        (cost_of product))
  pure (record item { stock_movement_id = some movement.id })

abbrev pub write_off : ℕ → Order → OrderProductItem → Tx Db OrderProductItem
write_off actor o item = write_off_by item.stock_movement_id actor o item

-- `resolve_fee`, then `payment_repo.create` with the table's `amount > 0`.
unfoldable pub create_payment : ℕ → PaymentCreate → Tx Db Payment
create_payment actor p s =
    let row : Payment = record {
      id = s.next_id;
      cash_register_id = p.cash_register_id;
      method = p.method;
      card_brand = p.card_brand;
      installments = p.installments;
      amount = p.amount;
      created_by = actor;
      fee = resolve_fee s.fee_rules p.method p.card_brand p.installments p.amount;
      reversed_at = none;
      reversed_by = none;
    } in
    if p.amount == 0 then err integrity else ok (row, record s { next_id = suc s.next_id })

abbrev pub with_commission : List ProfessionalService → OrderItem → OrderItem
with_commission links i = record i {
  commission = some (resolve_commission links i.professional_id i.service_id i.price);
}

abbrev pub competence : Clock → ℕ → Option ℕ → Option ℕ → Option ℕ
competence clock branch_id old none = old
competence clock branch_id old (some day) = some (clock.noon branch_id day)

-- The last part of `close_order`: from the commissions on.
unfoldable pub write_closed :
    Clock → ℕ → Order → OrderClose → List OrderProductItem → List Payment → Tx Db Order
write_closed clock actor found body product_items payments = do
  links ← gets (λ s. s.professional_services)
  mark_paid actor found.appointment_id
  let shut : Order = record found {
    status = closed;
    closed_at = some clock.now;
    closed_by = some actor;
    sale_competence_override =
        competence clock found.branch_id found.sale_competence_override body.sale_date;
    items = map (with_commission links) found.items;
    product_items = product_items;
    payments = found.payments ++ payments;
  }
  save_order shut
  audit actor order found.id update
  pure shut

-- The part after the checks: the stock, then the payments.
unfoldable pub write_off_and_pay : Clock → ℕ → Order → OrderClose → Tx Db Order
write_off_and_pay clock actor found body = do
  product_items ← collect (write_off actor found) found.product_items
  payments ← collect (create_payment actor) body.payments
  write_closed clock actor found body product_items payments

unfoldable pub close_order : Clock → ℕ → ℕ → OrderClose → Tx Db Order
close_order clock actor order_id body = do
  found ← get_order_for_update_or_404 order_id
  raise_if (not (is_open found)) conflict
  assert_operational_prerequisites clock found.branch_id for_payment
  saldo ← or_raise (settle body.payments (order_charged_total found)) validation
  raise_if (ltb 0 saldo) validation
  each (λ p. assert_register_open_and_in_org p.cash_register_id) body.payments
  write_off_and_pay clock actor found body

unfoldable pub cancel_order : ℕ → ℕ → Tx Db Order
cancel_order actor order_id = do
  found ← get_order_for_update_or_404 order_id
  raise_if (not (is_open found)) conflict
  let gone : Order = record found { status = cancelled }
  save_order gone
  audit actor order order_id update
  cancel_appointment_for_order_cancel actor found.appointment_id
  pure gone

abbrev pub is_active : Payment → Bool
is_active p = elim p.reversed_at [ none ↦ true | some _ ↦ false ]

abbrev pub is_settled : OrderItem → Bool
is_settled i = elim i.commission_settlement_id [ none ↦ false | some _ ↦ true ]

abbrev pub any_settled : List OrderItem → Bool
any_settled is = Registers.is_some (find is_settled is)

-- The first check of `reopen_order`, for the register of one payment.
unfoldable pub assert_register_still_open : Payment → Tx Db (Unit {0})
assert_register_still_open p = do
  register ← (λ s. or_raise (get_register p.cash_register_id s) validation s)
  raise_if (not (Registers.is_open register)) validation

abbrev pub reversed : ℕ → ℕ → Payment → Payment
reversed actor now p =
    if is_active p then record p { reversed_at = some now; reversed_by = some actor } else p

-- The compensating movement of one product item, by its `stock_movement_id`; `uuid4` draws the
-- movement's idempotency key.
unfoldable pub give_back_by :
    Option ℕ → (ℕ → ℕ) → ℕ → Order → OrderProductItem → Tx Db OrderProductItem
give_back_by none uuid4 actor o item = pure item
give_back_by (some _) uuid4 actor o item = do
  key ← gets (λ s. uuid4 s.stock.next_id)
  movement ←
      in_stock (
        record_consumption_correction actor item.product_id o.branch_id o.id item.quantity into key)
  audit actor order_product_item item.id update
  pure (record item { stock_movement_id = none })

abbrev pub give_back : (ℕ → ℕ) → ℕ → Order → OrderProductItem → Tx Db OrderProductItem
give_back uuid4 actor o item = give_back_by item.stock_movement_id uuid4 actor o item

-- The last part of `reopen_order`.
unfoldable pub write_reopened : Clock → ℕ → Order → List OrderProductItem → Tx Db Order
write_reopened clock actor found product_items = do
  demote_appointment_from_paid_for_order_reopen actor found.appointment_id
  let open_again : Order = record found {
    status = opened;
    closed_at = none;
    closed_by = none;
    product_items = product_items;
    payments = map (reversed actor clock.now) found.payments;
  }
  save_order open_again
  audit actor order found.id update
  pure open_again

-- The part after the checks: the payments' audit rows, then the stock.
unfoldable pub give_all_back : (ℕ → ℕ) → Clock → ℕ → Order → Tx Db Order
give_all_back uuid4 clock actor found = do
  each (λ p. audit actor payment p.id update) (filter is_active found.payments)
  product_items ← collect (give_back uuid4 actor found) found.product_items
  write_reopened clock actor found product_items

unfoldable pub reopen_order : (ℕ → ℕ) → Clock → ℕ → ℕ → Tx Db Order
reopen_order uuid4 clock actor order_id = do
  found ← get_order_for_update_or_404 order_id
  raise_if (not (is_closed found)) conflict
  each assert_register_still_open (filter is_active found.payments)
  raise_if (any_settled found.items) validation
  give_all_back uuid4 clock actor found
