-- ===== src/Tests/Booking.antt =====
-- One free hour of the professional is booked, beside an appointment that was there before.
use nexasalon_api.Prelude.{ℕ, ◌≡◌, refl, true, false, none, some, [], ◌∷◌, Result, ok, err, arith}
use nexasalon_api.Appointments.Status.{confirmed}
use nexasalon_api.Access.Records.{agenda_edit, agenda_view_all}
use nexasalon_api.Access.Agenda.{ActorContext, can_view_professional, can_edit_professional}
use nexasalon_api.Orders.Registers.{
  get_open_for_branch, stale_open_register, assert_operational_prerequisites,
}
use nexasalon_api.Booking.Records.{AppointmentItem, AppointmentCreate, Db}
use nexasalon_api.Booking.Snapshots.{
  list_conflicts, resolve_force_overlap, checked_item, build_item_snapshot,
  build_all_item_snapshots,
}
use nexasalon_api.Booking.Creation.{
  apply_conflict_policy, assert_can_edit, assert_branch_and_client, create_appointment,
}
use nexasalon_api.Booking.Creation.Exclusive.{IsExclusive, create_appointment-IsExclusive}
use nexasalon_api.Booking.Creation.Within.{Adds, create_appointment-IsFree}
use nexasalon_api.Tests.Scheduling as Scheduling
use nexasalon_api.Tests.Orders as Orders
use nexasalon_api.Tests.Access as Access

runs : Unit {0}
unfolding Scheduling.runs list_conflicts resolve_force_overlap checked_item build_item_snapshot
    build_all_item_snapshots apply_conflict_policy assert_can_edit assert_branch_and_client
    create_appointment can_view_professional can_edit_professional get_open_for_branch
    stale_open_register assert_operational_prerequisites
runs = tt

abbrev local_date : ℕ → ℕ → ℕ
local_date tz at = 0

abbrev actor : ActorContext
actor = record Access.actor {
  agenda_viewable_professional_ids = none;
  agenda_editable_professional_ids = none;
  permissions = agenda_edit ∷ agenda_view_all ∷ [];
}

-- At ten o'clock, in appointment 2 of the orders.
abbrev earlier : AppointmentItem
earlier = record {
  id = 3;
  appointment_id = 2;
  service_id = 30;
  professional_id = 40;
  start_at = 36000;
  end_at = 39600;
  duration_minutes = 60;
  price = 10000;
  status = some confirmed;
}

abbrev db : Db
db = record {
  orders = Orders.db;
  schedule = Scheduling.db;
  bookings = [];
  items = earlier ∷ [];
  clients = record { id = 5; is_active = true } ∷ [];
}

abbrev body : AppointmentCreate
body = record {
  branch_id = 10;
  client_id = 5;
  items =
      record {
        professional_id = 40;
        service_id = 30;
        start_at = 39600;
        price_override = none;
        duration_override = some 30;
      }
      ∷ [];
  fit_in = false;
  force_overlap = false;
}

abbrev value : {A : Type 0} → A → Result A → A
value d (ok a) = a
value d (err e) = d

abbrev made : ℕ × Db
unfolding runs
made = value (0, db) (create_appointment Scheduling.combine local_date Orders.clock actor body db)

makes :
    create_appointment Scheduling.combine local_date Orders.clock actor body db
    ≡ ok (made.0, made.1)
unfolding runs
makes = refl

db-IsExclusive : IsExclusive db
db-IsExclusive = ((refl, tt), (omega arith, tt))

create_appointment-IsExclusive_example : IsExclusive made.1
create_appointment-IsExclusive_example =
    create_appointment-IsExclusive Scheduling.combine local_date Orders.clock actor body db
      (made.0, made.1) db-IsExclusive refl makes

create_appointment-IsFree_example :
    Adds Scheduling.combine local_date db 10 made.0 (made.1).items db.items 1
create_appointment-IsFree_example =
    create_appointment-IsFree Scheduling.combine local_date Orders.clock actor body db
      (made.0, made.1) refl makes
