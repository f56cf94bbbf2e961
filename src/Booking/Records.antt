-- ===== src/Booking/Records.antt =====
-- The rows that making an appointment writes, beside those of the orders (where an appointment has
-- its status) and those that the availability reads. The newest row comes first.
use nexasalon_api.Prelude.{ℕ, Bool, Option, List}
use nexasalon_api.Appointments.Status.{AppointmentStatus}
use nexasalon_api.Scheduling.Records as Scheduling
use nexasalon_api.Orders.Records as Orders

-- `AppointmentItem` of models/appointment.py; its own status overrides that of the appointment.
pub record AppointmentItem : Type 0 where
  pub id : ℕ
  pub appointment_id : ℕ
  pub service_id : ℕ
  pub professional_id : ℕ
  pub start_at : ℕ
  pub end_at : ℕ
  pub duration_minutes : ℕ
  pub price : ℕ
  pub status : Option AppointmentStatus

-- The other columns of an `Appointment`.
pub record Booking : Type 0 where
  pub appointment_id : ℕ
  pub branch_id : ℕ
  pub client_id : ℕ
  pub fit_in : Bool

pub record Client : Type 0 where
  pub id : ℕ
  pub is_active : Bool

pub record Db : Type 0 where
  pub orders : Orders.Db
  pub schedule : Scheduling.Db
  pub bookings : List Booking
  pub items : List AppointmentItem
  pub clients : List Client

-- The bodies of the requests (schemas/appointment.py).
pub record AppointmentItemCreate : Type 0 where
  pub professional_id : ℕ
  pub service_id : ℕ
  pub start_at : ℕ
  pub price_override : Option ℕ
  pub duration_override : Option ℕ

pub record AppointmentCreate : Type 0 where
  pub branch_id : ℕ
  pub client_id : ℕ
  pub items : List AppointmentItemCreate
  pub fit_in : Bool
  pub force_overlap : Bool

-- The `reason` of a rejection.
pub data Reason : Type 0 where
  professional_hours business_hours schedule_block conflict : Reason

-- `_ItemSnapshot`; a reason is there where `has_conflict` holds.
pub record ItemSnapshot : Type 0 where
  pub professional_id : ℕ
  pub service_id : ℕ
  pub start_at : ℕ
  pub end_at : ℕ
  pub duration_minutes : ℕ
  pub price : ℕ
  pub conflict_reason : Option Reason
