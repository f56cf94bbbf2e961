-- ===== src/Orders/Lifecycle/Closing.antt =====
-- What closing an order does, taken apart.
use nexasalon_api.Prelude.{
  not-false, ℕ, ◌+◌, ◌-◌, ◌≡◌, ◌↔◌, refl, sym, ap, subst, ◌∙◌, inl, inr, true, false, not, ◌&&◌,
  none, some, List, [], ◌∷◌, ◌++◌, map, arith, sum_of, find, All, ltb, ◌==◌, ok, err, Result, each,
  collect, pure, lift, ◌>>=◌, >>=-eq-ok, ok-injective, some-injective, Bool-cases, not_found,
  conflict, validation, or_raise-then, raise_if-then, check-then, IsCheck, raise_if-IsCheck,
  each-IsCheck,
}
use nexasalon_api.Appointments.Status as Machine
use nexasalon_api.Appointments.Status.{AppointmentStatus, paid}
use nexasalon_api.Stock.Movements.Shifts.{Shifted}
use nexasalon_api.Orders.Records.{
  Db, Order, closed, OrderItem, OrderProductItem, Payment, PaymentCreate, OrderClose, Clock,
  Appointment,
}
use nexasalon_api.Orders.Totals.{cents, order_charged_total}
use nexasalon_api.Orders.Store.{
  get_order_for_update_or_404, replace_order, is_open, get_appointment, set_status, change_status,
  mark_paid,
}
use nexasalon_api.Orders.Registers.{
  for_payment, Purpose, assert_operational_prerequisites, assert_register_open_and_in_org,
  get_register, require_open, is_some, stale_open_register, get_open_for_branch,
}
use nexasalon_api.Orders.Registers as Registers
use nexasalon_api.Orders.Lifecycle.{
  settle, write_off, create_payment, with_commission, competence, write_closed, write_off_and_pay,
  close_order,
}
use nexasalon_api.Orders.Lifecycle.Goods.{IsTaken, Pointwise, to_take, write_offs-Moves}

-- The payments that use up a balance exactly are those whose sum it is.
pub settle_iff :
    (ps : List PaymentCreate) (saldo left : ℕ)
    → (settle ps saldo ≡ some left) ↔ (left + sum_of (λ p. cents p.amount) ps ≡ saldo)
unfolding settle
settle_iff [] saldo left = (λ h. omega (arith, some-injective h), λ h. ap some (omega (arith, h)))
settle_iff (p ∷ ps) saldo left = elim (Bool-cases (ltb saldo (cents p.amount))) [
  | inl e ↦ rw e (λ h. cc, λ h. absurd (ground (arith, e)))
  | inr e ↦ rw e (
    λ h. ground (arith, (settle_iff ps (saldo - cents p.amount) left).0 h),
    λ h. (settle_iff ps (saldo - cents p.amount) left).1 (ground arith),
  )
]

prerequisites-IsCheck :
    (clock : Clock) (branch : ℕ) (purpose : Purpose)
    → IsCheck (assert_operational_prerequisites clock branch purpose)
unfolding assert_operational_prerequisites
prerequisites-IsCheck clock branch purpose s r h =
    let (_, h1) =
      raise_if-then
        (s.config.block_if_previous_day_open
          && is_some (stale_open_register clock branch s.registers))
        conflict _ s h in
    raise_if-IsCheck
      (require_open s.config purpose && not (is_some (get_open_for_branch branch s.registers)))
      validation s r h1

register-IsCheck : (id : ℕ) → IsCheck (assert_register_open_and_in_org id)
unfolding assert_register_open_and_in_org
register-IsCheck id s r h =
    let (register, _, h1) = or_raise-then (get_register id s) not_found _ s h in
    raise_if-IsCheck (not (Registers.is_open register)) validation s r h1

-- The rows that `create_payment` makes for the payments.
abbrev pub IsPaid : List PaymentCreate → List Payment → Type 0
IsPaid ps rows =
    (sum_of (λ r. r.amount) rows ≡ sum_of (λ p. p.amount) ps) × All (λ r. r.reversed_at ≡ none) rows

abbrev pub Still : Db → Db → Type 0
Still s s' = (s'.stock ≡ s.stock) × (s'.orders ≡ s.orders) × (s'.appointments ≡ s.appointments)

create_payment-one :
    (actor : ℕ) (p : PaymentCreate) (s : Db) {r : Payment × Db}
    → create_payment actor p s ≡ ok r
    → (r.0.amount ≡ p.amount) × (r.0.reversed_at ≡ none) × Still s r.1
unfolding create_payment
create_payment-one actor p s {r} = elim (Bool-cases (p.amount == 0)) [
  | inl e ↦ rw e (λ h. cc)
  | inr e ↦ rw e (λ h.
      subst (λ r. (r.0.amount ≡ p.amount) × (r.0.reversed_at ≡ none) × Still s r.1) (ok-injective h)
        (refl, refl, (refl, refl, refl)))
]

create_payments-IsPaid :
    (actor : ℕ) (ps : List PaymentCreate) (s : Db) {r : List Payment × Db}
    → collect (create_payment actor) ps s ≡ ok r
    → IsPaid ps r.0 × Still s r.1
create_payments-IsPaid actor [] s h =
    subst (λ r. IsPaid [] r.0 × Still s r.1) (ok-injective h) ((refl, tt), (refl, refl, refl))
create_payments-IsPaid actor (p ∷ ps) s h =
    let (row, s1, e1, h1) = >>=-eq-ok (create_payment actor p) _ s h in
    let (rows, s2, e2, h2) =
      >>=-eq-ok (collect (create_payment actor) ps) (λ ys. pure (row ∷ ys)) s1 h1 in
    let (same, active, still) = create_payment-one actor p s e1 in
    let (others, after) = create_payments-IsPaid actor ps s1 e2 in
    subst (λ r. IsPaid (p ∷ ps) r.0 × Still s r.1) (ok-injective h2)
      (
        (omega (arith, same, others.0), (active, others.1)),
        (after.0 ∙ still.0, after.1 ∙ still.1, after.2 ∙ still.2),
      )

mark_paid-status :
    (st : AppointmentStatus) {st' : AppointmentStatus} → Machine.mark_paid st ≡ ok st' → st' ≡ paid
unfolding Machine.mark_paid
mark_paid-status st h = ground arith

mark_paid-ok :
    (actor id : ℕ) (s : Db) {r : Unit {0} × Db}
    → mark_paid actor id s ≡ ok r
    → (a : Appointment) × (get_appointment id s ≡ some a)
      × (r.1.appointments ≡ set_status actor id paid s.appointments)
      × (r.1.stock ≡ s.stock)
      × (r.1.orders ≡ s.orders)
unfolding mark_paid
mark_paid-ok actor id s {r} h =
    let (a, found, h1) = or_raise-then (get_appointment id s) not_found _ s h in
    let (apps, stock, orders) = by_status a (Machine.mark_paid a.status) refl h1 in
    (a, found, apps, stock, orders)
  where
    by_status :
        (a : Appointment) (x : Result AppointmentStatus)
        → Machine.mark_paid a.status ≡ x
        → (lift x >>= λ st. change_status actor id st) s ≡ ok r
        → (r.1.appointments ≡ set_status actor id paid s.appointments)
          × (r.1.stock ≡ s.stock)
          × (r.1.orders ≡ s.orders)
    by_status a (err e) q k = cc
    by_status a (ok st) q k =
        subst
          (λ r.
            (r.1.appointments ≡ set_status actor id paid s.appointments)
            × (r.1.stock ≡ s.stock)
            × (r.1.orders ≡ s.orders))
          (ok-injective k)
          (
            ap (λ st. set_status actor id st s.appointments) (mark_paid-status a.status q),
            refl,
            refl,
          )

-- The order that closing stores.
abbrev pub shut_order :
    Clock → ℕ → Order → OrderClose → List OrderProductItem → List Payment → List OrderItem → Order
shut_order clock actor found body product_items payments items = record found {
  status = closed;
  closed_at = some clock.now;
  closed_by = some actor;
  sale_competence_override =
      competence clock found.branch_id found.sale_competence_override body.sale_date;
  items = items;
  product_items = product_items;
  payments = found.payments ++ payments;
}

-- Everything that a closing which went through did, `found` being the order before.
pub record IsClosing (clock : Clock) (actor : ℕ) (body : OrderClose) (found : Order) (s : Db)
    (o : Order) (s' : Db) : Type 0 where
  pub product_items : List OrderProductItem
  pub payments : List Payment
  pub items : List OrderItem
  pub was_open : is_open found ≡ true
  pub due : sum_of (λ p. cents p.amount) body.payments ≡ order_charged_total found
  pub written : o ≡ shut_order clock actor found body product_items payments items
  pub goods : Pointwise IsTaken found.product_items product_items
  pub rows : IsPaid body.payments payments
  pub stock :
      Shifted found.branch_id
        (λ p. sum_of (to_take p) found.product_items)
        (λ p. sum_of (λ i. 0) found.product_items)
        s.stock
        s'.stock
  pub orders : s'.orders ≡ replace_order o s.orders
  pub promoted : (a : Appointment) × (get_appointment found.appointment_id s ≡ some a)
  pub appointments : s'.appointments ≡ set_status actor found.appointment_id paid s.appointments

write_closed-ok :
    (clock : Clock) (actor : ℕ) (found : Order) (body : OrderClose) (is : List OrderProductItem)
    (ps : List Payment) (s : Db) {r : Order × Db}
    → write_closed clock actor found body is ps s ≡ ok r
    → (r.0
        ≡ shut_order clock actor found body is ps
            (map (with_commission s.professional_services) found.items))
      × ((a : Appointment) × (get_appointment found.appointment_id s ≡ some a))
      × (r.1.appointments ≡ set_status actor found.appointment_id paid s.appointments)
      × (r.1.stock ≡ s.stock)
      × (r.1.orders ≡ replace_order r.0 s.orders)
unfolding write_closed
write_closed-ok clock actor found body is ps s {r} h =
    let (u, s1, e, h1) = >>=-eq-ok (mark_paid actor found.appointment_id) _ s h in
    let (a, there, apps, stock, orders) = mark_paid-ok actor found.appointment_id s e in
    subst
      (λ r.
        (r.0
          ≡ shut_order clock actor found body is ps
              (map (with_commission s.professional_services) found.items))
        × ((a : Appointment) × (get_appointment found.appointment_id s ≡ some a))
        × (r.1.appointments ≡ set_status actor found.appointment_id paid s.appointments)
        × (r.1.stock ≡ s.stock)
        × (r.1.orders ≡ replace_order r.0 s.orders))
      (ok-injective h1) (refl, (a, there), apps, stock, ap (replace_order _) orders)

write_off_and_pay-ok :
    (clock : Clock) (actor : ℕ) (found : Order) (body : OrderClose) (s : Db) {r : Order × Db}
    → is_open found ≡ true
    → sum_of (λ p. cents p.amount) body.payments ≡ order_charged_total found
    → write_off_and_pay clock actor found body s ≡ ok r
    → IsClosing clock actor body found s r.0 r.1
unfolding write_off_and_pay
write_off_and_pay-ok clock actor found body s {r} o due h =
    let (is, s1, e1, h1) = >>=-eq-ok (collect (write_off actor found) found.product_items) _ s h in
    let (ps, s2, e2, h2) = >>=-eq-ok (collect (create_payment actor) body.payments) _ s1 h1 in
    let (goods, ((orders1, apps1), stock1)) =
      write_offs-Moves actor found found.product_items s e1 in
    let (rows, (stock2, orders2, apps2)) = create_payments-IsPaid actor body.payments s1 e2 in
    let (written, promoted, apps3, stock3, orders3) =
      write_closed-ok clock actor found body is ps s2 h2 in
    record {
      product_items = is;
      payments = ps;
      items = map (with_commission s2.professional_services) found.items;
      was_open = o;
      due = due;
      written = written;
      goods = goods;
      rows = rows;
      stock = subst (Shifted found.branch_id _ _ s.stock) (sym (stock3 ∙ stock2)) stock1;
      orders = orders3 ∙ ap (replace_order r.0) (orders2 ∙ orders1);
      promoted = (
        promoted.0,
        subst (λ xs. find (λ a. a.id == found.appointment_id) xs ≡ some promoted.0) (apps2 ∙ apps1)
            promoted.1,
      );
      appointments = apps3 ∙ ap (set_status actor found.appointment_id paid) (apps2 ∙ apps1);
    }

zero_left : (n : ℕ) → ltb 0 n ≡ false → n ≡ 0
zero_left n h = ground arith

pub close_order-ok :
    (clock : Clock) (actor id : ℕ) (body : OrderClose) (s : Db) {r : Order × Db}
    → close_order clock actor id body s ≡ ok r
    → (found : Order) × (find (λ o. o.id == id) s.orders ≡ some found)
      × IsClosing clock actor body found s r.0 r.1
unfolding close_order get_order_for_update_or_404
close_order-ok clock actor id body s {r} h =
    let (found, there, h1) = or_raise-then (find (λ o. o.id == id) s.orders) not_found _ s h in
    let (o, h2) = raise_if-then (not (is_open found)) conflict _ s h1 in
    let h3 =
      check-then (assert_operational_prerequisites clock found.branch_id for_payment) _ s
        (prerequisites-IsCheck clock found.branch_id for_payment) h2 in
    let (left, settled, h4) =
      or_raise-then (settle body.payments (order_charged_total found)) validation _ s h3 in
    let (none_left, h5) = raise_if-then (ltb 0 left) validation _ s h4 in
    let h6 =
      check-then (each (λ p. assert_register_open_and_in_org p.cash_register_id) body.payments) _ s
        (each-IsCheck _ body.payments (λ p. register-IsCheck p.cash_register_id)) h5 in
    (
      found,
      there,
      write_off_and_pay-ok clock actor found body s (not-false (is_open found) o)
          (omega (
            arith,
            (settle_iff body.payments (order_charged_total found) left).0 settled,
            zero_left left none_left,
          ))
          h6,
    )
