-- ===== src/Orders/Lifecycle/Properties.antt =====
-- The life of an order: closing it once, reopening it, and cancelling it.
use nexasalon_api.Prelude.{
  none, not-false, ok-injective, Option, or_raise-then, raise_if-then, >>=-eq-ok, not, Bool, err, ℕ,
  ◌+◌, ◌≡◌, refl, sym, ap, subst, ◌∙◌, inl, inr, true, false, some, List, [], ◌∷◌, arith, sum_of,
  sum_of-append, find, find-test, ◌==◌, ok, conflict, not_found, Bool-cases, ==_refl, ==_iff,
  or_raise-run,
}
use nexasalon_api.Appointments.Status.{paid, is_cancellable_via_linked_order}
use nexasalon_api.Stock.Levels.{quantity_of}
use nexasalon_api.Stock.Movements.Ledger.{IsReconciled}
use nexasalon_api.Orders.Records.{cancelled, Db, Order, closed, OrderClose, Clock, Appointment}
use nexasalon_api.Orders.Totals.{cents, order_charged_total}
use nexasalon_api.Orders.Store.{
  cancel_appointment_for_order_cancel, cancel_found, cancel_if, get_order_for_update_or_404,
  replace_order, is_open, get_appointment, set_status,
}
use nexasalon_api.Orders.Lifecycle.{close_order, cancel_order}
use nexasalon_api.Orders.Lifecycle.Goods.{to_take, IsTaken, Pointwise, zeros}
use nexasalon_api.Orders.Lifecycle.Closing.{close_order-ok}

find-replace_order :
    (o : Order) (xs : List Order) {x : Order}
    → find (λ y. y.id == o.id) xs ≡ some x
    → find (λ y. y.id == o.id) (replace_order o xs) ≡ some o
find-replace_order o [] = λ h. cc
find-replace_order o (y ∷ ys) = elim (Bool-cases (y.id == o.id)) [
  | inl e ↦ rw e (λ h. rw (==_refl o.id) refl)
  | inr e ↦ rw (e, e) (λ h. find-replace_order o ys h)
]

-- The row that was written is the one that is found.
pub stored :
    (id : ℕ) (o found : Order) (xs : List Order)
    → find (λ y. y.id == id) xs ≡ some found
    → o.id ≡ found.id
    → find (λ y. y.id == id) (replace_order o xs) ≡ some o
stored id o found xs h e =
    let same = e ∙ (==_iff found.id id).0 (find-test (λ y. y.id == id) xs h) in
    subst (λ n. find (λ y. y.id == n) (replace_order o xs) ≡ some o) same
      (find-replace_order o xs (subst (λ n. find (λ y. y.id == n) xs ≡ some found) (sym same) h))

set_paid :
    (actor id : ℕ) (xs : List Appointment) {a : Appointment}
    → find (λ x. x.id == id) xs ≡ some a
    → (b : Appointment) × (find (λ x. x.id == id) (set_status actor id paid xs) ≡ some b)
      × (b.status ≡ paid)
set_paid actor id [] = λ h. cc
set_paid actor id (x ∷ xs) = elim (Bool-cases (x.id == id)) [
  | inl e ↦ rw e (λ h. (record x { status = paid; updated_by = some actor }, rw e refl, refl))
  | inr e ↦ rw (e, e) (λ h. let (b, found, p) = set_paid actor id xs h in (b, found, p))
]

refused_unless_open :
    (clock : Clock) (actor id : ℕ) (body : OrderClose) (s : Db) (o : Order)
    → find (λ y. y.id == id) s.orders ≡ some o
    → is_open o ≡ false
    → close_order clock actor id body s ≡ err conflict
unfolding close_order get_order_for_update_or_404
refused_unless_open clock actor id body s o h e = or_raise-run not_found _ s h ∙ rw e refl

-- An order that is closed was open, and the payments of the request were together exactly what it
-- had to receive, its benefits left out; their amounts are added to those of its payments. The
-- order is stored as closed, its appointment as paid, and closing it once more is a conflict,
-- whatever the request brings.
pub close_order-settles :
    (clock : Clock) (actor id : ℕ) (body : OrderClose) (s : Db) {o : Order} {s' : Db}
    → close_order clock actor id body s ≡ ok (o, s')
    → (found : Order) × (find (λ x. x.id == id) s.orders ≡ some found)
      × (is_open found ≡ true)
      × (sum_of (λ p. cents p.amount) body.payments ≡ order_charged_total found)
      × (sum_of (λ p. p.amount) o.payments
          ≡ sum_of (λ p. p.amount) found.payments + sum_of (λ p. p.amount) body.payments)
      × (find (λ x. x.id == id) s'.orders ≡ some o)
      × (o.status ≡ closed)
      × ((a : Appointment) × (get_appointment found.appointment_id s' ≡ some a) × (a.status ≡ paid))
      × ((clock' : Clock) (actor' : ℕ) (body' : OrderClose)
          → close_order clock' actor' id body' s' ≡ err conflict)
close_order-settles clock actor id body s {o} {s'} h =
    let (found, there, c) = close_order-ok clock actor id body s h in
    let here : find (λ x. x.id == id) s'.orders ≡ some o =
      subst (λ xs. find (λ x. x.id == id) xs ≡ some o) (sym c.orders)
        (stored id o found s.orders there (ap (λ x. x.id) c.written)) in
    let (a, promoted, p) = set_paid actor found.appointment_id s.appointments c.promoted.1 in
    (
      found,
      there,
      c.was_open,
      c.due,
      ap (λ x. sum_of (λ p. p.amount) x.payments) c.written
          ∙ sum_of-append (λ p. p.amount) found.payments c.payments
          ∙ ap (λ n. sum_of (λ p. p.amount) found.payments + n) c.rows.0,
      here,
      ap (λ x. x.status) c.written,
      (
        a,
        subst (λ xs. find (λ x. x.id == found.appointment_id) xs ≡ some a) (sym c.appointments)
            promoted,
        p,
      ),
      λ clock' actor' body'.
          refused_unless_open clock' actor' id body' s' o here (ap is_open c.written),
    )

-- Closing takes from the stock of the order's branch, product by product, what the product items
-- say that had no stock movement yet; every item has one afterwards, no balance of another branch
-- changes, and the balances still agree with the movements if they did before.
pub close_order-stock :
    (clock : Clock) (actor id : ℕ) (body : OrderClose) (s : Db) {o : Order} {s' : Db}
    → close_order clock actor id body s ≡ ok (o, s')
    → (found : Order) × (find (λ x. x.id == id) s.orders ≡ some found)
      × Pointwise IsTaken found.product_items o.product_items
      × ((p : ℕ)
          → quantity_of p found.branch_id s'.stock.levels + sum_of (to_take p) found.product_items
            ≡ quantity_of p found.branch_id s.stock.levels)
      × ((p b : ℕ)
          → (found.branch_id == b) ≡ false
          → quantity_of p b s'.stock.levels ≡ quantity_of p b s.stock.levels)
      × (IsReconciled s.stock → IsReconciled s'.stock)
close_order-stock clock actor id body s {o} {s'} h =
    let (found, there, c) = close_order-ok clock actor id body s h in
    (
      found,
      there,
      subst (Pointwise IsTaken found.product_items) (sym (ap (λ x. x.product_items) c.written))
          c.goods,
      λ p. omega (arith, c.stock.0 p, zeros found.product_items),
      c.stock.1,
      c.stock.3,
    )

-- Cancelling sets the status only where the linked order allows it.
linked :
    (actor id : ℕ) (s : Db) {r : Unit {0} × Db}
    → cancel_appointment_for_order_cancel actor id s ≡ ok r
    → (r.1.stock ≡ s.stock) × (r.1.orders ≡ s.orders)
unfolding cancel_appointment_for_order_cancel
linked actor id s {r} h = by_found (get_appointment id s) h
  where
    by_test :
        (b : Bool) → cancel_if b actor id s ≡ ok r → (r.1.stock ≡ s.stock) × (r.1.orders ≡ s.orders)
    by_test true k =
        subst (λ r. (r.1.stock ≡ s.stock) × (r.1.orders ≡ s.orders)) (ok-injective k) (refl, refl)
    by_test false k =
        subst (λ r. (r.1.stock ≡ s.stock) × (r.1.orders ≡ s.orders)) (ok-injective k) (refl, refl)

    by_found :
        (x : Option Appointment)
        → cancel_found x actor id s ≡ ok r
        → (r.1.stock ≡ s.stock) × (r.1.orders ≡ s.orders)
    by_found none k =
        subst (λ r. (r.1.stock ≡ s.stock) × (r.1.orders ≡ s.orders)) (ok-injective k) (refl, refl)
    by_found (some a) k = by_test (is_cancellable_via_linked_order a.status) k

-- Only an open order is cancelled: it ends stored as cancelled with its payments and lines as they
-- were, nothing of the stock moves, and it can neither be cancelled once more nor closed.
pub cancel_order-spares :
    (actor id : ℕ) (s : Db) {o : Order} {s' : Db}
    → cancel_order actor id s ≡ ok (o, s')
    → (found : Order) × (find (λ x. x.id == id) s.orders ≡ some found)
      × (is_open found ≡ true)
      × (o ≡ record found { status = cancelled })
      × (s'.stock ≡ s.stock)
      × (find (λ x. x.id == id) s'.orders ≡ some o)
      × ((actor' : ℕ) → cancel_order actor' id s' ≡ err conflict)
      × ((clock : Clock) (actor' : ℕ) (body : OrderClose)
          → close_order clock actor' id body s' ≡ err conflict)
unfolding cancel_order get_order_for_update_or_404
cancel_order-spares actor id s {o} {s'} h =
    let (found, there, h1) = or_raise-then (find (λ x. x.id == id) s.orders) not_found _ s h in
    let (c, h2) = raise_if-then (not (is_open found)) conflict _ s h1 in
    let (u, s1, e, h3) =
      >>=-eq-ok (cancel_appointment_for_order_cancel actor found.appointment_id) _ _ h2 in
    let (stock, orders) = linked actor found.appointment_id _ e in
    let gone : Order = record found { status = cancelled } in
    let here : find (λ x. x.id == id) s1.orders ≡ some gone =
      subst (λ xs. find (λ x. x.id == id) xs ≡ some gone) (sym orders)
        (stored id gone found s.orders there refl) in
    let last = ok-injective h3 in
    let after = ap (λ r. r.1) last in
    let now : find (λ x. x.id == id) s'.orders ≡ some gone =
      subst (λ x. find (λ x. x.id == id) x.orders ≡ some gone) after here in
    (
      found,
      there,
      not-false (is_open found) c,
      sym (ap (λ r. r.0) last),
      subst (λ x. x.stock ≡ s.stock) after stock,
      subst (λ x. find (λ x. x.id == id) s'.orders ≡ some x) (ap (λ r. r.0) last) now,
      λ actor'. or_raise-run not_found _ s' now,
      λ clock actor' body. refused_unless_open clock actor' id body s' gone now refl,
    )
