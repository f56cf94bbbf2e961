-- ===== src/Scheduling/Records.antt =====
-- The rows that the availability reads, as the queries see them (models/professional.py,
-- models/service.py, models/appointment.py, models/organization.py). Rows of other organizations
-- are not there: each query filters by organization. A time zone is a name; a NULL and an empty
-- name are both `none`. A date is its proleptic ordinal, a time of day its seconds.
use nexasalon_api.Prelude.{ℕ, Bool, Option, List}
use nexasalon_api.Appointments.Status.{AppointmentStatus}

pub record WorkingHours : Type 0 where
  pub professional_id : ℕ
  pub weekday : ℕ
  pub is_active : Bool
  pub start_time : ℕ
  pub end_time : ℕ

pub record BusinessHours : Type 0 where
  pub weekday : ℕ
  pub is_open : Bool
  pub start_time : Option ℕ
  pub end_time : Option ℕ

-- An `AppointmentItem` joined with the status of its `Appointment`.
pub record AppointmentItem : Type 0 where
  pub professional_id : ℕ
  pub status : Option AppointmentStatus
  pub appointment_status : AppointmentStatus
  pub start_at : ℕ
  pub end_at : ℕ

pub data ScheduleBlockScope : Type 0 where
  professional branch organization : ScheduleBlockScope

pub record ScheduleBlock : Type 0 where
  pub scope : ScheduleBlockScope
  pub professional_id : Option ℕ
  pub branch_id : Option ℕ
  pub start_at : ℕ
  pub end_at : ℕ

pub record Branch : Type 0 where
  pub id : ℕ
  pub timezone : Option ℕ

pub record Professional : Type 0 where
  pub id : ℕ
  pub is_active : Bool
  pub branch_id : Option ℕ

-- Prices are whole cents.
pub record Service : Type 0 where
  pub id : ℕ
  pub is_active : Bool
  pub default_duration_minutes : ℕ
  pub default_price : ℕ

pub record ProfessionalService : Type 0 where
  pub professional_id : ℕ
  pub service_id : ℕ
  pub is_active : Bool
  pub duration_override_minutes : Option ℕ
  pub price_override : Option ℕ

pub record Db : Type 0 where
  pub timezone : ℕ
  pub branches : List Branch
  pub professionals : List Professional
  pub services : List Service
  pub professional_services : List ProfessionalService
  pub working_hours : List WorkingHours
  pub business_hours : List BusinessHours
  pub appointment_items : List AppointmentItem
  pub schedule_blocks : List ScheduleBlock

-- The keyword arguments of `compute_availability`.
pub record Query : Type 0 where
  pub branch_id : ℕ
  pub professional_id : ℕ
  pub service_id : ℕ
  pub target_date : ℕ
  pub slot_minutes : ℕ
  pub earliest_start : Option ℕ
  pub latest_start : Option ℕ
  pub duration_override_minutes : Option ℕ
