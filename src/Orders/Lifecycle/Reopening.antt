-- ===== src/Orders/Lifecycle/Reopening.antt =====
-- What reopening an order does, taken apart.
use nexasalon_api.Prelude.{
  not-false, ℕ, ◌≡◌, refl, sym, ap, subst, ◌∙◌, Bool, true, false, not, Option, none, some, List,
  [], ◌∷◌, map, filter, sum_of, find, All, raise_if, ◌==◌, ok, each, collect, >>=-eq-ok,
  ok-injective, not_found, conflict, validation, or_raise-then, raise_if-then,
}
use nexasalon_api.Appointments.Status.{AppointmentStatus, demote_paid_for_reopen}
use nexasalon_api.Stock.Movements.Shifts.{Shifted}
use nexasalon_api.Orders.Records.{
  Db, Order, opened, OrderProductItem, Payment, Clock, Appointment, CashRegister, payment, update,
}
use nexasalon_api.Orders.Store.{
  get_order_for_update_or_404, replace_order, is_closed, get_appointment, audit, demote_to,
  demote_found, demote_appointment_from_paid_for_order_reopen,
}
use nexasalon_api.Orders.Registers.{get_register}
use nexasalon_api.Orders.Registers as Registers
use nexasalon_api.Orders.Lifecycle.{
  is_active, any_settled, assert_register_still_open, reversed, give_back, write_reopened,
  give_all_back, reopen_order,
}
use nexasalon_api.Orders.Lifecycle.Goods.{IsReturned, Pointwise, to_return, give_backs-Moves}
use nexasalon_api.Orders.Lifecycle.Closing.{Still}

-- The register of the payment is known and open.
abbrev pub RegisterOpen : Db → Payment → Type 0
RegisterOpen s p =
    (r : CashRegister) × (get_register p.cash_register_id s ≡ some r) × (Registers.is_open r ≡ true)

passes :
    (c : Bool) (s : Db) {r : Unit {0} × Db}
    → raise_if c validation s ≡ ok r
    → (c ≡ false) × (r.1 ≡ s)
passes true s h = cc
passes false s h = (refl, sym (ap (λ x. x.1) (ok-injective h)))

check_register :
    (p : Payment) (s : Db) {r : Unit {0} × Db}
    → assert_register_still_open p s ≡ ok r
    → RegisterOpen s p × (r.1 ≡ s)
unfolding assert_register_still_open
check_register p s h =
    let (register, there, h1) =
      or_raise-then (get_register p.cash_register_id s) validation _ s h in
    let (o, same) = passes (not (Registers.is_open register)) s h1 in
    ((register, there, not-false (Registers.is_open register) o), same)

check_registers :
    (ps : List Payment) (s : Db) {r : Unit {0} × Db}
    → each assert_register_still_open ps s ≡ ok r
    → All (RegisterOpen s) ps × (r.1 ≡ s)
check_registers [] s h = (tt, sym (ap (λ x. x.1) (ok-injective h)))
check_registers (p ∷ ps) s {r} h =
    let (u, s1, e, h1) =
      >>=-eq-ok (assert_register_still_open p) (λ _. each assert_register_still_open ps) s h in
    let (one, same) = check_register p s e in
    let (others, rest) = check_registers ps s1 h1 in
    ((one, subst (λ x. All (RegisterOpen x) ps) same others), rest ∙ same)

audits-Still :
    (actor : ℕ) (ps : List Payment) (s : Db) {r : Unit {0} × Db}
    → each (λ p. audit actor payment p.id update) ps s ≡ ok r
    → Still s r.1
audits-Still actor [] s h = subst (λ r. Still s r.1) (ok-injective h) (refl, refl, refl)
audits-Still actor (p ∷ ps) s h = audits-Still actor ps _ h

demote_to-ok :
    (x : Option AppointmentStatus) (actor id : ℕ) (s : Db) {r : Unit {0} × Db}
    → demote_to x actor id s ≡ ok r
    → (r.1.stock ≡ s.stock) × (r.1.orders ≡ s.orders)
demote_to-ok none actor id s h =
    subst (λ r. (r.1.stock ≡ s.stock) × (r.1.orders ≡ s.orders)) (ok-injective h) (refl, refl)
demote_to-ok (some st) actor id s h =
    subst (λ r. (r.1.stock ≡ s.stock) × (r.1.orders ≡ s.orders)) (ok-injective h) (refl, refl)

demote_found-ok :
    (x : Option Appointment) (actor id : ℕ) (s : Db) {r : Unit {0} × Db}
    → demote_found x actor id s ≡ ok r
    → (r.1.stock ≡ s.stock) × (r.1.orders ≡ s.orders)
demote_found-ok none actor id s h =
    subst (λ r. (r.1.stock ≡ s.stock) × (r.1.orders ≡ s.orders)) (ok-injective h) (refl, refl)
demote_found-ok (some a) actor id s h = demote_to-ok (demote_paid_for_reopen a.status) actor id s h

demote-ok :
    (actor id : ℕ) (s : Db) {r : Unit {0} × Db}
    → demote_appointment_from_paid_for_order_reopen actor id s ≡ ok r
    → (r.1.stock ≡ s.stock) × (r.1.orders ≡ s.orders)
unfolding demote_appointment_from_paid_for_order_reopen
demote-ok actor id s h = demote_found-ok (get_appointment id s) actor id s h

-- The order that reopening stores.
abbrev pub open_again : Clock → ℕ → Order → List OrderProductItem → Order
open_again clock actor found product_items = record found {
  status = opened;
  closed_at = none;
  closed_by = none;
  product_items = product_items;
  payments = map (reversed actor clock.now) found.payments;
}

-- Everything that a reopening which went through did, `found` being the order before.
pub record IsReopening (clock : Clock) (actor : ℕ) (found : Order) (s : Db) (o : Order) (s' : Db)
    : Type 0 where
  pub product_items : List OrderProductItem
  pub was_closed : is_closed found ≡ true
  pub registers : All (RegisterOpen s) (filter is_active found.payments)
  pub unsettled : any_settled found.items ≡ false
  pub written : o ≡ open_again clock actor found product_items
  pub goods : Pointwise IsReturned found.product_items product_items
  pub stock :
      Shifted found.branch_id
        (λ p. sum_of (λ i. 0) found.product_items)
        (λ p. sum_of (to_return p) found.product_items)
        s.stock
        s'.stock
  pub orders : s'.orders ≡ replace_order o s.orders

write_reopened-ok :
    (clock : Clock) (actor : ℕ) (found : Order) (is : List OrderProductItem) (s : Db)
    {r : Order × Db}
    → write_reopened clock actor found is s ≡ ok r
    → (r.0 ≡ open_again clock actor found is)
      × (r.1.stock ≡ s.stock)
      × (r.1.orders ≡ replace_order r.0 s.orders)
unfolding write_reopened
write_reopened-ok clock actor found is s h =
    let (u, s1, e, h1) =
      >>=-eq-ok (demote_appointment_from_paid_for_order_reopen actor found.appointment_id) _ s h in
    let (stock, orders) = demote-ok actor found.appointment_id s e in
    subst
      (λ r.
        (r.0 ≡ open_again clock actor found is)
        × (r.1.stock ≡ s.stock)
        × (r.1.orders ≡ replace_order r.0 s.orders))
      (ok-injective h1) (refl, stock, ap (replace_order _) orders)

give_all_back-ok :
    (uuid4 : ℕ → ℕ) (clock : Clock) (actor : ℕ) (found : Order) (s : Db) {r : Order × Db}
    → is_closed found ≡ true
    → All (RegisterOpen s) (filter is_active found.payments)
    → any_settled found.items ≡ false
    → give_all_back uuid4 clock actor found s ≡ ok r
    → IsReopening clock actor found s r.0 r.1
unfolding give_all_back
give_all_back-ok uuid4 clock actor found s {r} o open_registers unsettled h =
    let (u, s1, e1, h1) =
      >>=-eq-ok (each (λ p. audit actor payment p.id update) (filter is_active found.payments)) _ s
        h in
    let (is, s2, e2, h2) =
      >>=-eq-ok (collect (give_back uuid4 actor found) found.product_items) _ s1 h1 in
    let (stock1, orders1, _) = audits-Still actor (filter is_active found.payments) s e1 in
    let (goods, ((orders2, _), stock2)) =
      give_backs-Moves uuid4 actor found found.product_items s1 e2 in
    let (written, stock3, orders3) = write_reopened-ok clock actor found is s2 h2 in
    record {
      product_items = is;
      was_closed = o;
      registers = open_registers;
      unsettled = unsettled;
      written = written;
      goods = goods;
      stock =
          subst
            (λ x.
              Shifted found.branch_id (λ p. sum_of (λ i. 0) found.product_items)
                (λ p. sum_of (to_return p) found.product_items) x r.1.stock)
            stock1
            (subst
              (Shifted found.branch_id (λ p. sum_of (λ i. 0) found.product_items)
                (λ p. sum_of (to_return p) found.product_items) s1.stock)
              (sym stock3) stock2);
      orders = orders3 ∙ ap (replace_order r.0) (orders2 ∙ orders1);
    }

pub reopen_order-ok :
    (uuid4 : ℕ → ℕ) (clock : Clock) (actor id : ℕ) (s : Db) {r : Order × Db}
    → reopen_order uuid4 clock actor id s ≡ ok r
    → (found : Order) × (find (λ o. o.id == id) s.orders ≡ some found)
      × IsReopening clock actor found s r.0 r.1
unfolding reopen_order get_order_for_update_or_404
reopen_order-ok uuid4 clock actor id s {r} h =
    let (found, there, h1) = or_raise-then (find (λ o. o.id == id) s.orders) not_found _ s h in
    let (o, h2) = raise_if-then (not (is_closed found)) conflict _ s h1 in
    let (u, s1, e, h3) =
      >>=-eq-ok (each assert_register_still_open (filter is_active found.payments)) _ s h2 in
    let (registers, same) = check_registers (filter is_active found.payments) s e in
    let (unsettled, h4) = raise_if-then (any_settled found.items) validation _ s1 h3 in
    (
      found,
      there,
      give_all_back-ok uuid4 clock actor found s (not-false (is_closed found) o) registers unsettled
          (subst (λ x. give_all_back uuid4 clock actor found x ≡ ok r) same h4),
    )
