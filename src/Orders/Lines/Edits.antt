-- ===== src/Orders/Lines/Edits.antt =====
-- The five edits of an order's lines together.
use nexasalon_api.Prelude.{
  ◌/◌, ◌%◌, ◌*◌, not-false, ℕ, suc, ◌≡◌, refl, sym, ap, subst, ◌∙◌, Bool, true, false, not, Option,
  none, some, [], ◌∷◌, find, All-append, ◌==◌, if◌then◌else◌, ok, err, Result, Tx, ◌>>=◌, ◌>>◌,
  >>=-eq-ok, ok-injective, not_found, validation, integrity, pure, or_raise, raise_if,
  or_raise-then, raise_if-then, guarded-then,
}
use nexasalon_api.Stock.Records.{Stock, Product, ProductUnit}
use nexasalon_api.Stock.Units.{same_unit, convert_quantity}
use nexasalon_api.Stock.Levels.{rounded}
use nexasalon_api.Stock.Movements.{resolve_quantity_in_product_unit}
use nexasalon_api.Stock.Movements.Created.{get_product_or_404-then}
use nexasalon_api.Orders.Records.{
  Db, Order, OrderProductItem, OrderProductItemKind, sale, consumption, BenefitType,
}
use nexasalon_api.Orders.Store.{get_order_for_update_or_404, replace_order, is_open}
use nexasalon_api.Orders.Lifecycle.Goods.{in_stock-then}
use nexasalon_api.Orders.Lifecycle.Properties.{stored}
use nexasalon_api.Orders.Lines.{
  edit_line, OrderProductItemCreate, line_price, insert_line, append_line, update_order_item,
  update_order_item_benefit, add_product_item, remove_product_item, update_product_item,
}
use nexasalon_api.Orders.Lines.Soundness.{
  IsPending, IsSound, Kept, KeepsSound, change_item-KeepsSound, change_benefit-KeepsSound,
  change_line-KeepsSound, drop_line-KeepsSound,
}

converted :
    (same : Bool) (quantity : ℕ) (x : Result ℕ) (s : Stock) {r : ℕ × Stock}
    → (if◌then◌else◌ {A = Tx Stock ℕ} same
          (pure quantity)
          (λ s. elim x [ ok q ↦ ok (q, s) | err e ↦ err e ]))
        s
      ≡ ok r
    → r.1 ≡ s
converted true quantity x s h = sym (ap (λ x. x.1) (ok-injective h))
converted false quantity (ok q) s h = sym (ap (λ x. x.1) (ok-injective h))
converted false quantity (err e) s h = cc

-- Converting a quantity reads the stock only.
resolve_quantity-reads :
    (id quantity : ℕ) (input : Option ProductUnit) (s : Stock) {r : ℕ × Stock}
    → resolve_quantity_in_product_unit id quantity input s ≡ ok r
    → r.1 ≡ s
unfolding resolve_quantity_in_product_unit
resolve_quantity-reads id quantity none s h = sym (ap (λ x. x.1) (ok-injective h))
resolve_quantity-reads id quantity (some u) s h =
    let (product, _, h1) = get_product_or_404-then id _ s h in
    converted (same_unit u product.unit_of) (quantity * 1000)
      (convert_quantity (quantity * 1000) u product.unit_of) s h1

line_price-then :
    {B : Type 0} (kind : OrderProductItemKind) (price : Option ℕ) (product : Product)
    (f : ℕ → Tx Db B) (s : Db) {r : B × Db}
    → (line_price kind price product >>= f) s ≡ ok r
    → (n : ℕ) × (f n s ≡ ok r)
line_price-then consumption price product f s h = (_, h)
line_price-then sale price product f s {r} h = sold product.for_sale product.sale_price h
  where
    sold :
        (for_sale : Bool) (o : Option ℕ)
        → ((raise_if (not for_sale) validation >> or_raise o validation) >>= f) s ≡ ok r
        → (n : ℕ) × (f n s ≡ ok r)
    sold true (some n) h = (n, h)
    sold true none h = cc
    sold false o h = cc

append_line-KeepsSound :
    (actor : ℕ) (line : OrderProductItemCreate) → KeepsSound (append_line actor line)
unfolding append_line insert_line
append_line-KeepsSound actor line found s r h =
    let (product, _, h1) =
      or_raise-then (find (λ p. p.id == line.product_id) s.stock.products) not_found _ s h in
    let (_, h2) = raise_if-then (not product.is_active) validation _ s h1 in
    let (price, h3) = line_price-then line.item_type line.unit_price product _ s h2 in
    let (q, st, done, h4) =
      in_stock-then (resolve_quantity_in_product_unit line.product_id line.quantity line.input_unit)
        _ s h3 in
    let s1 : Db = record s { stock = st } in
    let row : OrderProductItem = record {
      id = s1.next_id;
      product_id = line.product_id;
      quantity = rounded (q / 1000) (q % 1000);
      unit_price = price;
      item_type = line.item_type;
      stock_movement_id = none;
    } in
    let (fine, h5) =
      guarded-then (rounded (q / 1000) (q % 1000) == 0) integrity
        (row, record s1 { next_id = suc s1.next_id }) _ s1 h4 in
    subst (Kept found s) (ok-injective h5) (
      refl,
      resolve_quantity-reads line.product_id line.quantity line.input_unit s.stock done,
      refl,
      refl,
      λ k. (k.0, All-append IsPending found.product_items (row ∷ []) k.1 ((fine, refl), tt)),
    )

-- One of the five operations, with what its request brings.
pub data LineEdit : Type 0 where
  item_edit : ℕ → Option ℕ → Option ℕ → LineEdit
  benefit_edit : ℕ → Option BenefitType → Option ℕ → LineEdit
  line_add : OrderProductItemCreate → LineEdit
  line_remove : ℕ → LineEdit
  line_edit : ℕ → Option ℕ → Option ℕ → LineEdit

unfoldable pub run : LineEdit → ℕ → ℕ → Tx Db Order
run (item_edit item price duration) actor id = update_order_item actor id item price duration
run (benefit_edit item kind amount) actor id = update_order_item_benefit actor id item kind amount
run (line_add line) actor id = add_product_item actor id line
run (line_remove item) actor id = remove_product_item actor id item
run (line_edit item quantity price) actor id = update_product_item actor id item quantity price

abbrev Edited : ℕ → Db → Order → Db → Type 0
Edited id s o s' =
    (found : Order) × (find (λ x. x.id == id) s.orders ≡ some found)
    × (is_open found ≡ true)
    × (is_open o ≡ true)
    × (find (λ x. x.id == id) s'.orders ≡ some o)
    × (s'.stock ≡ s.stock)
    × (IsSound found → IsSound o)

edit_line-ok :
    (id : ℕ) (change : Order → Tx Db Order) (s : Db) {r : Order × Db}
    → KeepsSound change
    → edit_line id change s ≡ ok r
    → Edited id s r.0 r.1
unfolding edit_line get_order_for_update_or_404
edit_line-ok id change s {r} keeps h =
    let (found, there, h1) = or_raise-then (find (λ o. o.id == id) s.orders) not_found _ s h in
    let (o, h2) = raise_if-then (not (is_open found)) validation _ s h1 in
    let (changed, s1, e, h3) = >>=-eq-ok (change found) _ s h2 in
    let (orders, stock, same_id, same_status, sound) = keeps found s (changed, s1) e in
    subst (λ r. Edited id s r.0 r.1) (ok-injective h3)
      (
        found,
        there,
        not-false (is_open found) o,
        same_status ∙ not-false (is_open found) o,
        subst (λ xs. find (λ x. x.id == id) (replace_order changed xs) ≡ some changed) (sym orders)
            (stored id changed found s.orders there same_id),
        stock,
        sound,
      )

-- Each of the five edits of a line needs an open order and leaves it open and stored, touches no
-- balance of the stock, and keeps the order sound: every benefit within its item's price, and every
-- product item with a quantity and without a stock movement.
pub run-IsSound :
    (edit : LineEdit) (actor id : ℕ) (s : Db) {o : Order} {s' : Db}
    → run edit actor id s ≡ ok (o, s')
    → (found : Order) × (find (λ x. x.id == id) s.orders ≡ some found)
      × (is_open found ≡ true)
      × (is_open o ≡ true)
      × (find (λ x. x.id == id) s'.orders ≡ some o)
      × (s'.stock ≡ s.stock)
      × (IsSound found → IsSound o)
unfolding run update_order_item update_order_item_benefit add_product_item remove_product_item
    update_product_item
run-IsSound (item_edit item price duration) actor id s h =
    edit_line-ok id _ s (change_item-KeepsSound actor item price duration) h
run-IsSound (benefit_edit item kind amount) actor id s h =
    edit_line-ok id _ s (change_benefit-KeepsSound actor item kind amount) h
run-IsSound (line_add line) actor id s h = edit_line-ok id _ s (append_line-KeepsSound actor line) h
run-IsSound (line_remove item) actor id s h =
    edit_line-ok id _ s (drop_line-KeepsSound actor item) h
run-IsSound (line_edit item quantity price) actor id s h =
    edit_line-ok id _ s (change_line-KeepsSound actor item quantity price) h
