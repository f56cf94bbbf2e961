-- ===== src/Booking/Creation.antt =====
-- `create_appointment` of services/appointments.py, and the trigger on the items of
-- alembic/versions/0004_agenda_integrity_triggers.py, which the last check is left to.
pub mod Accepted
pub mod Exclusive
pub mod Within
use nexasalon_api.Prelude.{
  ℕ, suc, ◌+◌, Bool, true, false, not, ◌&&◌, ◌||◌, Option, none, some, List, [], ◌∷◌, find, any,
  ltb, ◌==◌, if◌then◌else◌, Tx, Result, Error, ok, err, not_found, validation, forbidden, integrity,
  pure, gets, modify, raise_if, or_raise, each, ◌>>=◌, ◌>>◌,
}
use nexasalon_api.Appointments.Status.{
  AppointmentStatus, scheduled, confirmed, waiting, in_progress, finished, paid, cancelled, no_show,
}
use nexasalon_api.Access.Agenda.{ActorContext, can_edit_professional}
use nexasalon_api.Orders.Records as Orders
use nexasalon_api.Orders.Records.{Appointment, appointment, create, update, Clock}
use nexasalon_api.Orders.Store.{audit}
use nexasalon_api.Orders.Registers.{for_appointment, assert_operational_prerequisites}
use nexasalon_api.Booking.Records.{AppointmentItem, AppointmentCreate, ItemSnapshot, Client, Db}
use nexasalon_api.Booking.Snapshots.{
  status_of, has_status, is_some, resolve_force_overlap, build_all_item_snapshots,
}

abbrev pub with_orders : {A : Type 0} → Db → Result (A × Orders.Db) → Result (A × Db)
with_orders s (ok (a, o)) = ok (a, record s { orders = o })
with_orders s (err e) = err e

-- A call on the orders, in the same transaction.
abbrev pub in_orders : {A : Type 0} → Tx Orders.Db A → Tx Db A
in_orders m s = with_orders s (m s.orders)

abbrev pub has_conflict : ItemSnapshot → Bool
has_conflict s = is_some s.conflict_reason

-- `_apply_conflict_policy`
unfoldable pub apply_conflict_policy : Bool → List ItemSnapshot → Tx Db Bool
apply_conflict_policy effective_force_overlap snapshots =
    raise_if (any has_conflict snapshots && not effective_force_overlap) Error.conflict
    >> pure (any has_conflict snapshots)

-- `_assert_can_edit`
unfoldable pub assert_can_edit : ActorContext → List ItemSnapshot → Tx Db (Unit {0})
unfolding can_edit_professional
assert_can_edit actor snapshots =
    raise_if (any (λ s. not (can_edit_professional actor s.professional_id)) snapshots) forbidden

-- `_assert_branch_and_client`
abbrev pub is_archived : Client → Bool
is_archived c = not c.is_active

unfoldable pub assert_branch_and_client : ℕ → ℕ → Tx Db (Unit {0})
assert_branch_and_client branch_id client_id = do
  branch ← gets (λ s. find (λ b. b.id == branch_id) s.schedule.branches)
  _ ← or_raise branch not_found
  found ← gets (λ s. find (λ c. c.id == client_id) s.clients)
  client ← or_raise found not_found
  raise_if (is_archived client) validation

-- The statuses that the trigger looks at: all but two.
abbrev pub is_blocking : AppointmentStatus → Bool
is_blocking scheduled = true
is_blocking confirmed = true
is_blocking waiting = true
is_blocking in_progress = true
is_blocking finished = true
is_blocking paid = true
is_blocking cancelled = false
is_blocking no_show = false

-- `tstzrange(...) && tstzrange(...)`: half-open ranges, of which an empty one meets none.
abbrev pub meets : ℕ → ℕ → ℕ → ℕ → Bool
meets a b c d = (ltb a d && ltb c b) && (ltb a b && ltb c d)

-- A row that `check_appointment_item_overlap` counts for a new one.
abbrev pub clashes : List Appointment → ItemSnapshot → AppointmentItem → Bool
clashes appointments new i =
    has_status is_blocking (status_of appointments i)
    && (i.professional_id == new.professional_id
        && meets i.start_at i.end_at new.start_at new.end_at)

abbrev pub item_row : ℕ → ℕ → ItemSnapshot → AppointmentItem
item_row id appointment_id s = record {
  id = id;
  appointment_id = appointment_id;
  service_id = s.service_id;
  professional_id = s.professional_id;
  start_at = s.start_at;
  end_at = s.end_at;
  duration_minutes = s.duration_minutes;
  price = s.price;
  status = none;
}

abbrev pub put_item : ℕ → ItemSnapshot → Db → Db
put_item appointment_id new s = record s {
  items = item_row s.orders.next_id appointment_id new ∷ s.items;
  orders = record s.orders { next_id = suc s.orders.next_id };
}

-- `appointment_item_repo.create`, with the trigger before it.
abbrev pub insert_item : Bool → ℕ → ItemSnapshot → Tx Db (Unit {0})
insert_item allow_overlap appointment_id new s =
    (raise_if (not allow_overlap && any (clashes s.orders.appointments new) s.items) integrity
        >> modify (put_item appointment_id new))
      s

abbrev pub new_appointment : ℕ → ℕ → Appointment
new_appointment id actor_user_id = record {
  id = id;
  status = scheduled;
  updated_by = some actor_user_id;
}

abbrev pub put_appointment : ActorContext → AppointmentCreate → Db → Db
put_appointment actor body s = record s {
  orders = record s.orders {
    appointments = new_appointment s.orders.next_id actor.user_id ∷ s.orders.appointments;
    next_id = suc s.orders.next_id;
  };
  bookings =
      record {
        appointment_id = s.orders.next_id;
        branch_id = body.branch_id;
        client_id = body.client_id;
        fit_in = body.fit_in;
      }
      ∷ s.bookings;
}

abbrev pub audit_forced : Bool → ℕ → ℕ → Tx Db (Unit {0})
audit_forced true actor_user_id id = in_orders (audit actor_user_id appointment id update)
audit_forced false actor_user_id id = pure tt

-- The rows that the call writes once everything is checked.
abbrev pub write_appointment : ActorContext → AppointmentCreate → Bool → List ItemSnapshot → Tx Db ℕ
write_appointment actor body any_forced snapshots = do
  id ← gets (λ s. s.orders.next_id)
  modify (put_appointment actor body)
  each (insert_item any_forced id) snapshots
  in_orders (audit actor.user_id appointment id create)
  audit_forced any_forced actor.user_id id
  pure id

module _ (combine : ℕ → ℕ → ℕ → ℕ) (local_date : ℕ → ℕ → ℕ) where
  unfoldable pub create_appointment : Clock → ActorContext → AppointmentCreate → Tx Db ℕ
  create_appointment clock actor body = do
    force_overlap ← resolve_force_overlap actor.permissions body.force_overlap
    assert_branch_and_client body.branch_id body.client_id
    in_orders (assert_operational_prerequisites clock body.branch_id for_appointment)
    snapshots ←
        build_all_item_snapshots combine local_date body.branch_id none force_overlap [] body.items
    assert_can_edit actor snapshots
    any_forced ← apply_conflict_policy force_overlap snapshots
    write_appointment actor body any_forced snapshots
