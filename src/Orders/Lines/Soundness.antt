-- ===== src/Orders/Lines/Soundness.antt =====
-- What the edits of the lines keep.
use nexasalon_api.Prelude.{
  not-false, ℕ, ◌≡◌, refl, subst, ◌∙◌, inl, inr, Bool, true, false, not, ◌&&◌, Option, none, List,
  [], ◌∷◌, find, All, All-filter, find-All, ◌==◌, ok, Tx, Bool-cases, ◌>>◌, ok-injective, not_found,
  validation, integrity, assertion, or_raise-then, raise_if-then,
}
use nexasalon_api.Orders.Records.{Db, Order, OrderItem, OrderProductItem, BenefitType, AuditEntity}
use nexasalon_api.Orders.Store.{is_open}
use nexasalon_api.Orders.Lines.{
  audit_if, or_keep, differs, item_fits, replace_item, replace_product_item, change_item, exceeds,
  change_benefit, same_amount, same_benefit_type, has_movement, drop_line, change_line,
}

-- A product item of an open order: some of the product, and no stock movement.
abbrev pub IsPending : OrderProductItem → Type 0
IsPending i = ((i.quantity == 0) ≡ false) × (i.stock_movement_id ≡ none)

-- An open order whose benefits are within the prices, and of which nothing left the stock.
abbrev pub IsSound : Order → Type 0
IsSound o = All (λ i. item_fits i ≡ true) o.items × All IsPending o.product_items

-- What each of the five changes does to the rows, and to the order.
abbrev pub Kept : Order → Db → Order × Db → Type 0
Kept found s r =
    (r.1.orders ≡ s.orders)
    × (r.1.stock ≡ s.stock)
    × (r.0.id ≡ found.id)
    × (is_open r.0 ≡ is_open found)
    × (IsSound found → IsSound r.0)

abbrev pub KeepsSound : (Order → Tx Db Order) → Type 0
KeepsSound change =
    (found : Order) (s : Db) (r : Order × Db) → change found s ≡ ok r → Kept found s r

replace_item-All :
    (item : OrderItem) (is : List OrderItem)
    → item_fits item ≡ true
    → All (λ i. item_fits i ≡ true) is
    → All (λ i. item_fits i ≡ true) (replace_item item is)
replace_item-All item [] h k = tt
replace_item-All item (i ∷ is) h k = elim (Bool-cases (i.id == item.id)) [
  | inl e ↦ rw e (h, k.1)
  | inr e ↦ rw e (k.0, replace_item-All item is h k.1)
]

replace_product_item-All :
    (item : OrderProductItem) (is : List OrderProductItem)
    → IsPending item
    → All IsPending is
    → All IsPending (replace_product_item item is)
replace_product_item-All item [] h k = tt
replace_product_item-All item (i ∷ is) h k = elim (Bool-cases (i.id == item.id)) [
  | inl e ↦ rw e (h, k.1)
  | inr e ↦ rw e (k.0, replace_product_item-All item is h k.1)
]

audit_if-then :
    {B : Type 0} (b : Bool) (actor : ℕ) (entity : AuditEntity) (id : ℕ) (k : Tx Db B) (s : Db)
    {r : B × Db}
    → (audit_if b actor entity id >> k) s ≡ ok r
    → (s1 : Db) × (s1.orders ≡ s.orders) × (s1.stock ≡ s.stock) × (k s1 ≡ ok r)
audit_if-then true actor entity id k s h = (_, refl, refl, h)
audit_if-then false actor entity id k s h = (s, refl, refl, h)

pub change_item-KeepsSound :
    (actor item_id : ℕ) (price duration : Option ℕ)
    → KeepsSound (change_item actor item_id price duration)
unfolding change_item
change_item-KeepsSound actor item_id price duration found s r h =
    let (item, _, h1) = or_raise-then (find (λ i. i.id == item_id) found.items) not_found _ s h in
    let changed : OrderItem = record item {
      price = or_keep price item.price;
      duration_minutes = or_keep duration item.duration_minutes;
    } in
    let (fits, h2) = raise_if-then (not (item_fits changed)) integrity _ s h1 in
    let (s1, o1, k1, h3) =
      audit_if-then (differs price item.price) actor AuditEntity.order_item item.id _ s h2 in
    let (s2, o2, k2, h4) =
      audit_if-then (differs duration item.duration_minutes) actor AuditEntity.order_item item.id _
        s1 h3 in
    subst (Kept found s) (ok-injective h4) (
      o2 ∙ o1,
      k2 ∙ k1,
      refl,
      refl,
      λ k. (replace_item-All changed found.items (not-false (item_fits changed) fits) k.0, k.1),
    )

pub change_benefit-KeepsSound :
    (actor item_id : ℕ) (kind : Option BenefitType) (amount : Option ℕ)
    → KeepsSound (change_benefit actor item_id kind amount)
unfolding change_benefit
change_benefit-KeepsSound actor item_id kind amount found s r h =
    let (item, _, h1) = or_raise-then (find (λ i. i.id == item_id) found.items) not_found _ s h in
    let (_, h2) = raise_if-then (exceeds amount item.price) validation _ s h1 in
    let changed : OrderItem = record item { benefit_type = kind; benefit_amount = amount } in
    let (fits, h3) = raise_if-then (not (item_fits changed)) integrity _ s h2 in
    let (s1, o1, k1, h4) =
      audit_if-then
        (not (same_benefit_type kind item.benefit_type && same_amount amount item.benefit_amount))
        actor AuditEntity.order_item item.id _ s h3 in
    subst (Kept found s) (ok-injective h4) (
      o1,
      k1,
      refl,
      refl,
      λ k. (replace_item-All changed found.items (not-false (item_fits changed) fits) k.0, k.1),
    )

pub change_line-KeepsSound :
    (actor item_id : ℕ) (quantity price : Option ℕ)
    → KeepsSound (change_line actor item_id quantity price)
unfolding change_line
change_line-KeepsSound actor item_id quantity price found s r h =
    let (item, there, h1) =
      or_raise-then (find (λ i. i.id == item_id) found.product_items) not_found _ s h in
    let changed : OrderProductItem = record item {
      quantity = or_keep quantity item.quantity;
      unit_price = or_keep price item.unit_price;
    } in
    let (some_of, h2) = raise_if-then (changed.quantity == 0) integrity _ s h1 in
    let (s1, o1, k1, h3) =
      audit_if-then (differs quantity item.quantity) actor AuditEntity.order_product_item item.id _
        s h2 in
    let (s2, o2, k2, h4) =
      audit_if-then (differs price item.unit_price) actor AuditEntity.order_product_item item.id _
        s1 h3 in
    subst (Kept found s) (ok-injective h4) (
      o2 ∙ o1,
      k2 ∙ k1,
      refl,
      refl,
      λ k. (
        k.0,
        replace_product_item-All changed found.product_items
            (some_of, (find-All IsPending (λ i. i.id == item_id) found.product_items k.1 there).1)
            k.1,
      ),
    )

pub drop_line-KeepsSound : (actor item_id : ℕ) → KeepsSound (drop_line actor item_id)
unfolding drop_line
drop_line-KeepsSound actor item_id found s r h =
    let (item, _, h1) =
      or_raise-then (find (λ i. i.id == item_id) found.product_items) not_found _ s h in
    let (_, h2) = raise_if-then (has_movement item) assertion _ s h1 in
    subst (Kept found s) (ok-injective h2) (
      refl,
      refl,
      refl,
      refl,
      λ k. (k.0, All-filter IsPending (λ i. not (i.id == item_id)) found.product_items k.1),
    )
