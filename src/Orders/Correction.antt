-- ===== src/Orders/Correction.antt =====
-- `correct_consumption` of services/orders.py: the compensating movement for a consumption of a
-- closed order, once for each idempotency key. The second layer of the source, a race between two
-- transactions that both found the key unused, does not occur as a request is one step; what is
-- left of it is that an `IntegrityError` of another cause is raised again.
use nexasalon_api.Prelude.{
  not-false, ℕ, ◌≡◌, refl, sym, ap, subst, ◌∙◌, inl, inr, ◌⊎◌, Bool, true, false, not, Option, none,
  some, List, ◌∷◌, find, ◌==◌, if◌then◌else◌, ==_refl, Bool-cases, ok, Tx, not_found, validation,
  pure, raise_if, or_raise, ◌>>=◌, ◌>>◌, ok-injective, or_raise-then, raise_if-then, or_raise-run,
  raise_if-run,
}
use nexasalon_api.Stock.Records.{
  Stock, StockMovement, StockMovementDirection, into, out, adjustment,
}
use nexasalon_api.Stock.Movements.{
  MovementArgs, record_consumption_correction, has_key, same_key, movement_row, create_movement,
}
use nexasalon_api.Stock.Movements.Created.{after, create_movement-ok}
use nexasalon_api.Stock.Movements.Shifts.{Shifted, create_movement-Shifted, removed, brought}
use nexasalon_api.Orders.Records.{
  Db, Order, OrderProductItem, sale, consumption, order_product_item, update,
}
use nexasalon_api.Orders.Registers.{is_some}
use nexasalon_api.Orders.Store.{in_stock, get_order_for_update_or_404, audit, is_closed}
use nexasalon_api.Orders.Lifecycle.Goods.{in_stock-then}

abbrev pub is_consumption : OrderProductItem → Bool
is_consumption i = elim i.item_type [ sale ↦ false | consumption ↦ true ]

-- `quantity_delta`: more was consumed than written off, or less.
pub data Delta : Type 0 where
  more less : ℕ → Delta

abbrev pub direction_of : Delta → StockMovementDirection
direction_of (more n) = out
direction_of (less n) = into

abbrev pub size_of : Delta → ℕ
size_of (more n) = n
size_of (less n) = n

-- The part after the optimistic check of the key.
unfoldable pub compensate : ℕ → Order → OrderProductItem → Delta → ℕ → Tx Db Order
compensate actor found item delta key = do
  movement ← in_stock (
      record_consumption_correction actor item.product_id found.branch_id found.id (size_of delta)
        (direction_of delta) key)
  audit actor order_product_item item.id update
  pure found

unfoldable pub compensate_once : ℕ → Order → OrderProductItem → Delta → ℕ → Tx Db Order
compensate_once actor found item delta key s =
    if has_key (some key) s.stock.movements
    then ok (found, s)
    else compensate actor found item delta key s

unfoldable pub correct_consumption : ℕ → ℕ → ℕ → Delta → ℕ → Tx Db Order
correct_consumption actor order_id item_id delta key = do
  found ← get_order_for_update_or_404 order_id
  raise_if (not (is_closed found)) validation
  item ← or_raise (find (λ i. i.id == item_id) found.product_items) not_found
  raise_if (not (is_consumption item)) validation
  raise_if (not (is_some item.stock_movement_id)) validation
  compensate_once actor found item delta key

-- What the guards establish.
record IsCorrectable (order_id item_id : ℕ) (s : Db) (found : Order) (item : OrderProductItem)
    : Type 0 where
  there : find (λ o. o.id == order_id) s.orders ≡ some found
  is_shut : not (is_closed found) ≡ false
  holds : find (λ i. i.id == item_id) found.product_items ≡ some item
  consumed : not (is_consumption item) ≡ false
  taken : not (is_some item.stock_movement_id) ≡ false

guards-then :
    (actor order_id item_id : ℕ) (delta : Delta) (key : ℕ) (s : Db) {r : Order × Db}
    → correct_consumption actor order_id item_id delta key s ≡ ok r
    → (found : Order) × (item : OrderProductItem) × IsCorrectable order_id item_id s found item
      × (compensate_once actor found item delta key s ≡ ok r)
unfolding correct_consumption get_order_for_update_or_404
guards-then actor order_id item_id delta key s h =
    let (found, t, h1) = or_raise-then (find (λ o. o.id == order_id) s.orders) not_found _ s h in
    let (c, h2) = raise_if-then (not (is_closed found)) validation _ s h1 in
    let (item, i, h3) =
      or_raise-then (find (λ i. i.id == item_id) found.product_items) not_found _ s h2 in
    let (k, h4) = raise_if-then (not (is_consumption item)) validation _ s h3 in
    let (m, h5) = raise_if-then (not (is_some item.stock_movement_id)) validation _ s h4 in
    (found, item, record { there = t; is_shut = c; holds = i; consumed = k; taken = m }, h5)

guards-run :
    (actor order_id item_id : ℕ) (delta : Delta) (key : ℕ) (s : Db) (found : Order)
    (item : OrderProductItem)
    → IsCorrectable order_id item_id s found item
    → correct_consumption actor order_id item_id delta key s
      ≡ compensate_once actor found item delta key s
unfolding correct_consumption get_order_for_update_or_404
guards-run actor order_id item_id delta key s found item g =
    or_raise-run not_found _ s g.there
    ∙ raise_if-run validation _ s g.is_shut
    ∙ or_raise-run not_found _ s g.holds
    ∙ raise_if-run validation _ s g.consumed
    ∙ raise_if-run validation _ s g.taken

abbrev args : ℕ → Order → OrderProductItem → Delta → ℕ → MovementArgs
args actor found item delta key = record {
  product_id = item.product_id;
  branch_id = found.branch_id;
  direction = direction_of delta;
  reason = adjustment;
  quantity = size_of delta;
  rest = 0;
  unit_cost = none;
  order_id = some found.id;
  transfer_id = none;
  inventory_count_id = none;
  idempotency_key = some key;
}

-- By how much a correction moves the balance of one product, down and up.
abbrev pub lowered : OrderProductItem → Delta → ℕ → ℕ
lowered item delta p =
    if item.product_id == p then removed (direction_of delta) (size_of delta) else 0

abbrev pub raised : OrderProductItem → Delta → ℕ → ℕ
raised item delta p =
    if item.product_id == p then brought (direction_of delta) (size_of delta) else 0

own_key :
    (actor : ℕ) (d : MovementArgs) (s : Stock) (key : ℕ)
    → d.idempotency_key ≡ some key
    → has_key (some key) (after actor d s).movements ≡ true
own_key actor d s key h =
    first (some key) (movement_row actor d s.next_id) s.movements
      (same (movement_row actor d s.next_id) h)
  where
    same : (m : StockMovement) → m.idempotency_key ≡ some key → same_key (some key) m ≡ true
    same m e = rw e (==_refl key)

    there :
        (x : Option ℕ) (m : StockMovement) (ms : List StockMovement)
        → same_key x m ≡ true
        → find (same_key x) (m ∷ ms) ≡ some m
    there x m ms e = rw e refl

    first :
        (x : Option ℕ) (m : StockMovement) (ms : List StockMovement)
        → same_key x m ≡ true
        → has_key x (m ∷ ms) ≡ true
    first x m ms e = ap is_some (there x m ms e)

compensate-ok :
    (actor : ℕ) (found : Order) (item : OrderProductItem) (delta : Delta) (key : ℕ) (s : Db)
    {r : Order × Db}
    → compensate actor found item delta key s ≡ ok r
    → (r.0 ≡ found)
      × (r.1.orders ≡ s.orders)
      × (has_key (some key) r.1.stock.movements ≡ true)
      × Shifted found.branch_id (lowered item delta) (raised item delta) s.stock r.1.stock
unfolding compensate record_consumption_correction
compensate-ok actor found item delta key s h =
    let d = args actor found item delta key in
    let (m, st, done, last) = in_stock-then (create_movement actor d) _ s h in
    let (_, _, e) = create_movement-ok actor d s.stock done in
    subst
      (λ r.
        (r.0 ≡ found)
        × (r.1.orders ≡ s.orders)
        × (has_key (some key) r.1.stock.movements ≡ true)
        × Shifted found.branch_id (lowered item delta) (raised item delta) s.stock r.1.stock)
      (ok-injective last)
      (
        refl,
        refl,
        subst (λ x. has_key (some key) x.movements ≡ true) (sym e)
            (own_key actor d s.stock key refl),
        create_movement-Shifted actor d s.stock refl done,
      )

-- What one call of `correct_consumption` may have done.
abbrev Done : Order → OrderProductItem → Delta → ℕ → Db → Order × Db → Type 0
Done found item delta key s r =
    (r.0 ≡ found)
    × (r.1.orders ≡ s.orders)
    × (has_key (some key) r.1.stock.movements ≡ true)
    × (((has_key (some key) s.stock.movements ≡ true) × (r.1 ≡ s))
        ⊎ ((has_key (some key) s.stock.movements ≡ false)
            × Shifted found.branch_id (lowered item delta) (raised item delta) s.stock r.1.stock))

compensate_once-Done :
    (actor : ℕ) (found : Order) (item : OrderProductItem) (delta : Delta) (key : ℕ) (s : Db)
    {r : Order × Db}
    → compensate_once actor found item delta key s ≡ ok r
    → Done found item delta key s r
unfolding compensate_once
compensate_once-Done actor found item delta key s {r} =
    elim (Bool-cases (has_key (some key) s.stock.movements)) [
      | inl e ↦ λ h.
          subst (Done found item delta key s) (ok-injective (rw e at h))
            (refl, refl, e, inl (e, refl))
      | inr e ↦ λ h.
          let (same, orders, known, shifted) =
            compensate-ok actor found item delta key s (rw e at h) in
          (same, orders, known, inr (e, shifted))
    ]

repeated :
    (actor : ℕ) (found : Order) (item : OrderProductItem) (delta : Delta) (key : ℕ) (s : Db)
    → has_key (some key) s.stock.movements ≡ true
    → compensate_once actor found item delta key s ≡ ok (found, s)
unfolding compensate_once
repeated actor found item delta key s e = rw e refl

-- A correction that goes through is for a consumption of a closed order that took goods from the
-- stock. If its key was used before, nothing changes; if not, the balance of the product in the
-- order's branch moves by exactly the correction, and no other branch changes. Either way, repeating
-- it with the same key, by whomever and for whatever amount, succeeds and changes nothing.
pub correct_consumption-once :
    (actor id item_id : ℕ) (delta : Delta) (key : ℕ) (s : Db) {o : Order} {s' : Db}
    → correct_consumption actor id item_id delta key s ≡ ok (o, s')
    → (item : OrderProductItem) × (is_closed o ≡ true)
      × (find (λ i. i.id == item_id) o.product_items ≡ some item)
      × (is_consumption item ≡ true)
      × (is_some item.stock_movement_id ≡ true)
      × (((has_key (some key) s.stock.movements ≡ true) × (s' ≡ s))
          ⊎ ((has_key (some key) s.stock.movements ≡ false)
              × Shifted o.branch_id (lowered item delta) (raised item delta) s.stock s'.stock))
      × ((actor' : ℕ) (delta' : Delta)
          → correct_consumption actor' id item_id delta' key s' ≡ ok (o, s'))
correct_consumption-once actor id item_id delta key s {o} {s'} h =
    let (found, item, g, h1) = guards-then actor id item_id delta key s h in
    let (same, orders, known, effect) = compensate_once-Done actor found item delta key s h1 in
    let g' : IsCorrectable id item_id s' found item = record {
      there = subst (λ xs. find (λ x. x.id == id) xs ≡ some found) (sym orders) g.there;
      is_shut = g.is_shut;
      holds = g.holds;
      consumed = g.consumed;
      taken = g.taken;
    } in
    subst
      (λ f.
        (item : OrderProductItem) × (is_closed f ≡ true)
        × (find (λ i. i.id == item_id) f.product_items ≡ some item)
        × (is_consumption item ≡ true)
        × (is_some item.stock_movement_id ≡ true)
        × (((has_key (some key) s.stock.movements ≡ true) × (s' ≡ s))
            ⊎ ((has_key (some key) s.stock.movements ≡ false)
                × Shifted f.branch_id (lowered item delta) (raised item delta) s.stock s'.stock))
        × ((actor' : ℕ) (delta' : Delta)
            → correct_consumption actor' id item_id delta' key s' ≡ ok (f, s')))
      (sym same)
      (
        item,
        not-false _ g.is_shut,
        g.holds,
        not-false _ g.consumed,
        not-false _ g.taken,
        effect,
        λ actor' delta'.
            guards-run actor' id item_id delta' key s' found item g'
            ∙ repeated actor' found item delta' key s' known,
      )
