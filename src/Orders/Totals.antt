-- ===== src/Orders/Totals.antt =====
-- services/order_totals.py. A total is in thousandths of a cent, so that a quantity times a price
-- is a whole number.
use nexasalon_api.Prelude.{ℕ, ◌+◌, ◌-◌, ◌*◌, Option, none, some, sum_of}
use nexasalon_api.Orders.Records.{Order, OrderItem}

abbrev pub cents : ℕ → ℕ
cents n = n * 1000

-- `order_total_breakdown`, one function for each of its fields.
unfoldable pub services_total : Order → ℕ
services_total order = sum_of (λ item. cents item.price) order.items

unfoldable pub products_total : Order → ℕ
products_total order = sum_of (λ item. item.quantity * item.unit_price) order.product_items

unfoldable pub order_total : Order → ℕ
unfolding services_total products_total
order_total order = services_total order + products_total order

abbrev pub or_zero : Option ℕ → ℕ
or_zero none = 0
or_zero (some n) = n

-- The table has `benefit_amount <= price`, so the difference is not negative.
unfoldable pub item_charged_amount : OrderItem → ℕ
item_charged_amount item = item.price - or_zero item.benefit_amount

unfoldable pub order_charged_total : Order → ℕ
unfolding products_total item_charged_amount
order_charged_total order =
    sum_of (λ item. cents (item_charged_amount item)) order.items + products_total order
