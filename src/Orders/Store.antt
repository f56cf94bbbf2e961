-- ===== src/Orders/Store.antt =====
-- Reading and writing the rows: repositories/order_repo.py and appointment_repo.py, the audit log,
-- and the effects on an appointment that services/appointments.py keeps for the orders.
use nexasalon_api.Prelude.{
  ℕ, Bool, true, false, Option, none, some, List, [], ◌∷◌, find, ◌==◌, if◌then◌else◌, Tx, Result,
  ok, err, not_found, or_raise, pure, modify, lift, ◌>>=◌, ◌>>◌,
}
use nexasalon_api.Appointments.Status as Machine
use nexasalon_api.Appointments.Status.{
  AppointmentStatus, demote_paid_for_reopen, is_cancellable_via_linked_order,
}
use nexasalon_api.Stock.Records.{Stock}
use nexasalon_api.Orders.Records.{
  Order, opened, closed, cancelled, Appointment, AuditEntity, AuditAction, appointment, update, Db,
}

abbrev pub with_stock : {A : Type 0} → Db → Result (A × Stock) → Result (A × Db)
with_stock s (ok (a, st)) = ok (a, record s { stock = st })
with_stock s (err e) = err e

-- A call on the stock, in the same transaction.
abbrev pub in_stock : {A : Type 0} → Tx Stock A → Tx Db A
in_stock m s = with_stock s (m s.stock)

-- `_get_order_for_update_or_404`
unfoldable pub get_order_for_update_or_404 : ℕ → Tx Db Order
get_order_for_update_or_404 order_id s =
    or_raise (find (λ o. o.id == order_id) s.orders) not_found s

-- The row of the order is written.
abbrev pub replace_order : Order → List Order → List Order
replace_order order [] = []
replace_order order (o ∷ os) = if o.id == order.id then order ∷ os else o ∷ replace_order order os

abbrev pub save_order : Order → Tx Db (Unit {0})
save_order order = modify (λ s. record s { orders = replace_order order s.orders })

abbrev pub audit : ℕ → AuditEntity → ℕ → AuditAction → Tx Db (Unit {0})
audit actor entity id action = modify (λ s. record s {
  audit_logs =
      record { entity_type = entity; entity_id = id; action = action; user_id = actor }
      ∷ s.audit_logs;
})

abbrev pub is_open : Order → Bool
is_open o = elim o.status [ opened ↦ true | closed ↦ false | cancelled ↦ false ]

abbrev pub is_closed : Order → Bool
is_closed o = elim o.status [ opened ↦ false | closed ↦ true | cancelled ↦ false ]

abbrev pub set_status : ℕ → ℕ → AppointmentStatus → List Appointment → List Appointment
set_status actor id status [] = []
set_status actor id status (a ∷ as') =
    if a.id == id
    then record a { status = status; updated_by = some actor } ∷ as'
    else a ∷ set_status actor id status as'

-- `appointment.status = ...`, `updated_by = ...` and the audit row.
abbrev pub change_status : ℕ → ℕ → AppointmentStatus → Tx Db (Unit {0})
change_status actor id status =
    modify (λ s. record s { appointments = set_status actor id status s.appointments })
    >> audit actor appointment id update

-- `appointment_repo.get`
abbrev pub get_appointment : ℕ → Db → Option Appointment
get_appointment id s = find (λ a. a.id == id) s.appointments

-- `mark_paid` of services/appointments.py
unfoldable pub mark_paid : ℕ → ℕ → Tx Db (Unit {0})
mark_paid actor id = do
  found ← (λ s. or_raise (get_appointment id s) not_found s)
  status ← lift (Machine.mark_paid found.status)
  change_status actor id status

abbrev pub cancel_if : Bool → ℕ → ℕ → Tx Db (Unit {0})
cancel_if true actor id = change_status actor id Machine.AppointmentStatus.cancelled
cancel_if false actor id = pure tt

abbrev pub cancel_found : Option Appointment → ℕ → ℕ → Tx Db (Unit {0})
cancel_found none actor id = pure tt
cancel_found (some a) actor id = cancel_if (is_cancellable_via_linked_order a.status) actor id

unfoldable pub cancel_appointment_for_order_cancel : ℕ → ℕ → Tx Db (Unit {0})
cancel_appointment_for_order_cancel actor id s = cancel_found (get_appointment id s) actor id s

-- The appointment that was found, and the status it goes back to.
abbrev pub demote_to : Option AppointmentStatus → ℕ → ℕ → Tx Db (Unit {0})
demote_to none actor id = pure tt
demote_to (some status) actor id = change_status actor id status

abbrev pub demote_found : Option Appointment → ℕ → ℕ → Tx Db (Unit {0})
demote_found none actor id = pure tt
demote_found (some a) actor id = demote_to (demote_paid_for_reopen a.status) actor id

unfoldable pub demote_appointment_from_paid_for_order_reopen : ℕ → ℕ → Tx Db (Unit {0})
demote_appointment_from_paid_for_order_reopen actor id s =
    demote_found (get_appointment id s) actor id s
