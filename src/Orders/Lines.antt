-- ===== src/Orders/Lines.antt =====
-- services/orders.py: editing the lines of an open order. Each operation locks the order, checks
-- that it is open, changes it, and stores it; the constraints of the tables refuse a row at the
-- flush. An operation that changes nothing stores the order as it was.
pub mod Soundness
pub mod Edits
use nexasalon_api.Prelude.{
  ◌/◌, ◌%◌, ℕ, suc, Bool, true, false, not, ◌&&◌, ◌||◌, Option, none, some, List, [], ◌∷◌, ◌++◌,
  map, find, filter, leb, ◌==◌, if◌then◌else◌, Tx, ok, err, not_found, validation, integrity,
  assertion, pure, gets, raise, raise_if, or_raise, ◌>>=◌, ◌>>◌,
}
use nexasalon_api.Stock.Records.{Product, ProductUnit}
use nexasalon_api.Stock.Levels.{rounded}
use nexasalon_api.Stock.Movements.{resolve_quantity_in_product_unit}
use nexasalon_api.Orders.Records.{
  Db, Order, OrderItem, OrderProductItem, OrderProductItemKind, sale, consumption, BenefitType,
  loyalty, courtesy, AuditEntity, AuditAction, order_item, order_product_item, create, update,
  delete,
}
use nexasalon_api.Orders.Store.{in_stock, get_order_for_update_or_404, save_order, audit, is_open}

-- The frame of the five operations.
unfoldable pub edit_line : ℕ → (Order → Tx Db Order) → Tx Db Order
edit_line order_id change = do
  found ← get_order_for_update_or_404 order_id
  raise_if (not (is_open found)) validation
  changed ← change found
  save_order changed
  pure changed

abbrev pub audit_if : Bool → ℕ → AuditEntity → ℕ → Tx Db (Unit {0})
audit_if true actor entity id = audit actor entity id update
audit_if false actor entity id = pure tt

abbrev pub or_keep : Option ℕ → ℕ → ℕ
or_keep none old = old
or_keep (some new) old = new

-- `new is not None and new != old`
abbrev pub differs : Option ℕ → ℕ → Bool
differs none old = false
differs (some new) old = not (new == old)

-- The constraint `benefit_requires_type_and_amount_within_price`.
abbrev pub benefit_fits : Option BenefitType → Option ℕ → ℕ → Bool
benefit_fits none none price = true
benefit_fits (some _) (some amount) price = leb amount price
benefit_fits _ _ price = false

abbrev pub item_fits : OrderItem → Bool
item_fits i = benefit_fits i.benefit_type i.benefit_amount i.price

-- A row of a list is written by its id.
abbrev pub replace_item : OrderItem → List OrderItem → List OrderItem
replace_item item [] = []
replace_item item (i ∷ is) = if i.id == item.id then item ∷ is else i ∷ replace_item item is

abbrev pub replace_product_item : OrderProductItem → List OrderProductItem → List OrderProductItem
replace_product_item item [] = []
replace_product_item item (i ∷ is) =
    if i.id == item.id then item ∷ is else i ∷ replace_product_item item is

unfoldable pub change_item : ℕ → ℕ → Option ℕ → Option ℕ → Order → Tx Db Order
change_item actor item_id price duration found = do
  item ← or_raise (find (λ i. i.id == item_id) found.items) not_found
  let changed : OrderItem = record item {
    price = or_keep price item.price;
    duration_minutes = or_keep duration item.duration_minutes;
  }
  raise_if (not (item_fits changed)) integrity
  audit_if (differs price item.price) actor order_item item.id
  audit_if (differs duration item.duration_minutes) actor order_item item.id
  pure (record found { items = replace_item changed found.items })

unfoldable pub update_order_item : ℕ → ℕ → ℕ → Option ℕ → Option ℕ → Tx Db Order
update_order_item actor order_id item_id price duration =
    edit_line order_id (change_item actor item_id price duration)

abbrev pub exceeds : Option ℕ → ℕ → Bool
exceeds none price = false
exceeds (some amount) price = not (leb amount price)

abbrev pub same_benefit_type : Option BenefitType → Option BenefitType → Bool
same_benefit_type none none = true
same_benefit_type (some loyalty) (some loyalty) = true
same_benefit_type (some courtesy) (some courtesy) = true
same_benefit_type _ _ = false

abbrev pub same_amount : Option ℕ → Option ℕ → Bool
same_amount none none = true
same_amount (some a) (some b) = a == b
same_amount _ _ = false

unfoldable pub change_benefit : ℕ → ℕ → Option BenefitType → Option ℕ → Order → Tx Db Order
change_benefit actor item_id benefit_type benefit_amount found = do
  item ← or_raise (find (λ i. i.id == item_id) found.items) not_found
  raise_if (exceeds benefit_amount item.price) validation
  let changed : OrderItem = record item {
    benefit_type = benefit_type;
    benefit_amount = benefit_amount;
  }
  raise_if (not (item_fits changed)) integrity
  audit_if
      (not (
        same_benefit_type benefit_type item.benefit_type
        && same_amount benefit_amount item.benefit_amount))
      actor order_item item.id
  pure (record found { items = replace_item changed found.items })

unfoldable pub update_order_item_benefit : ℕ → ℕ → ℕ → Option BenefitType → Option ℕ → Tx Db Order
update_order_item_benefit actor order_id item_id benefit_type benefit_amount =
    edit_line order_id (change_benefit actor item_id benefit_type benefit_amount)

pub record OrderProductItemCreate : Type 0 where
  pub product_id : ℕ
  pub quantity : ℕ
  pub input_unit : Option ProductUnit
  pub item_type : OrderProductItemKind
  pub unit_price : Option ℕ

abbrev pub or_zero : Option ℕ → ℕ
or_zero none = 0
or_zero (some n) = n

-- The price of a new line: the catalogue's for a sale, the request's for a consumption.
abbrev pub line_price : OrderProductItemKind → Option ℕ → Product → Tx Db ℕ
line_price consumption unit_price product = pure (or_zero unit_price)
line_price sale unit_price product =
    raise_if (not product.for_sale) validation >> or_raise product.sale_price validation

-- `order_product_item_repo.create`, of a quantity in millionths.
unfoldable pub insert_line : OrderProductItemCreate → ℕ → ℕ → Tx Db OrderProductItem
insert_line line quantity unit_price s =
    let row : OrderProductItem = record {
      id = s.next_id;
      product_id = line.product_id;
      quantity = rounded (quantity / 1000) (quantity % 1000);
      unit_price = unit_price;
      item_type = line.item_type;
      stock_movement_id = none;
    } in
    if row.quantity == 0 then err integrity else ok (row, record s { next_id = suc s.next_id })

unfoldable pub append_line : ℕ → OrderProductItemCreate → Order → Tx Db Order
append_line actor line found = do
  product ← (λ s. or_raise (find (λ p. p.id == line.product_id) s.stock.products) not_found s)
  raise_if (not product.is_active) validation
  unit_price ← line_price line.item_type line.unit_price product
  quantity ←
      in_stock (resolve_quantity_in_product_unit line.product_id line.quantity line.input_unit)
  item ← insert_line line quantity unit_price
  audit actor order_product_item item.id create
  pure (record found { product_items = found.product_items ++ item ∷ [] })

unfoldable pub add_product_item : ℕ → ℕ → OrderProductItemCreate → Tx Db Order
add_product_item actor order_id line = edit_line order_id (append_line actor line)

abbrev pub has_movement : OrderProductItem → Bool
has_movement i = elim i.stock_movement_id [ none ↦ false | some _ ↦ true ]

unfoldable pub drop_line : ℕ → ℕ → Order → Tx Db Order
drop_line actor item_id found = do
  item ← or_raise (find (λ i. i.id == item_id) found.product_items) not_found
  raise_if (has_movement item) assertion
  audit actor order_product_item item.id delete
  pure (record found { product_items = filter (λ i. not (i.id == item_id)) found.product_items })

unfoldable pub remove_product_item : ℕ → ℕ → ℕ → Tx Db Order
remove_product_item actor order_id item_id = edit_line order_id (drop_line actor item_id)

unfoldable pub change_line : ℕ → ℕ → Option ℕ → Option ℕ → Order → Tx Db Order
change_line actor item_id quantity unit_price found = do
  item ← or_raise (find (λ i. i.id == item_id) found.product_items) not_found
  let changed : OrderProductItem = record item {
    quantity = or_keep quantity item.quantity;
    unit_price = or_keep unit_price item.unit_price;
  }
  raise_if (changed.quantity == 0) integrity
  audit_if (differs quantity item.quantity) actor order_product_item item.id
  audit_if (differs unit_price item.unit_price) actor order_product_item item.id
  pure (record found { product_items = replace_product_item changed found.product_items })

unfoldable pub update_product_item : ℕ → ℕ → ℕ → Option ℕ → Option ℕ → Tx Db Order
update_product_item actor order_id item_id quantity unit_price =
    edit_line order_id (change_line actor item_id quantity unit_price)
