-- ===== src/Tests/Scheduling.antt =====
-- One professional's Monday, with a break and an appointment. A day has 86400 seconds, and the
-- first instants of the epoch are the first days.
use nexasalon_api.Prelude.{
  ◌-◌, ◌+◌, ◌*◌, ltb, if◌then◌else◌, find, ◌==◌, ℕ, ◌≡◌, refl, arith, true, not, ◌&&◌, none, some,
  List, [], ◌∷◌, All, Some, inl, Result, ok, err,
}
use nexasalon_api.Appointments.Status.{confirmed}
use nexasalon_api.Scheduling.Windows.{Interval, intersect_windows, subtract_busy, sort_by_start}
use nexasalon_api.Scheduling.Windows.Coverage.{covers, covers-subtract_busy}
use nexasalon_api.Scheduling.Slots.{
  Zones, AvailabilitySlot, generate_slots, ceil_to, first_candidate, slots_of,
}
use nexasalon_api.Scheduling.Slots.Grid.{
  IsFixed, Fits, StartsAt, generate_slots-fit, generate_slots_complete,
}
use nexasalon_api.Scheduling.Records.{Db, Query}
use nexasalon_api.Scheduling.Availability.{
  is_occupying, occupies, blocks, list_busy_for_professional_on_range, list_overlapping,
  effective_timezone, effective_duration_and_price, checked_duration, working_windows_utc,
  get_window_utc, effective_working_windows_utc, compute_availability,
}
use nexasalon_api.Scheduling.Availability.Safety.{
  IsBookableSlot, compute_availability-IsBookableSlot,
}

abbrev shift : List Interval
shift = (32400, 43200) ∷ (46800, 64800) ∷ []

abbrev opening : List Interval
opening = (36000, 61200) ∷ []

covers-subtract_busy_example :
    covers (subtract_busy shift opening) 35000 ≡ (covers shift 35000 && not (covers opening 35000))
covers-subtract_busy_example = covers-subtract_busy shift opening 35000

-- Two zones, three hours apart: the windows are of one, what begins at ten o'clock or later of the
-- other.
abbrev zones : Zones
zones = record {
  wall = λ zone at. at + zone * 10800;
  utc = λ zone wall. wall - zone * 10800;
  zone_of = λ at. if ltb at 36000 then 0 else 1;
}

abbrev east : ℕ → ℕ
east zone = zone * 10800

fixed : IsFixed zones east
fixed = record { to_wall = λ zone at. refl; to_utc = λ zone wall. refl }

generate_slots-fit_example :
    All (λ s. Some (Fits zones east fixed 60 30 s) shift) (generate_slots zones shift 60 30)
generate_slots-fit_example = generate_slots-fit zones east fixed 60 30 (omega arith) shift

generate_slots_complete_example :
    Some (StartsAt (0 + 19 * (30 * 60))) (generate_slots zones shift 60 30)
generate_slots_complete_example =
    generate_slots_complete zones east fixed 60 30 (omega arith) shift (32400, 43200) 19 (inl refl)
      (omega arith) (omega arith)

abbrev pub db : Db
db = record {
  timezone = 1;
  branches = record { id = 10; timezone = none } ∷ [];
  professionals = record { id = 40; is_active = true; branch_id = some 10 } ∷ [];
  services =
      record { id = 30; is_active = true; default_duration_minutes = 60; default_price = 10000 }
      ∷ [];
  professional_services =
      record {
        professional_id = 40;
        service_id = 30;
        is_active = true;
        duration_override_minutes = none;
        price_override = none;
      }
      ∷ [];
  working_hours =
      record {
        professional_id = 40;
        weekday = 0;
        is_active = true;
        start_time = 32400;
        end_time = 64800;
      }
      ∷ [];
  business_hours = [];
  appointment_items =
      record {
        professional_id = 40;
        status = none;
        appointment_status = confirmed;
        start_at = 36000;
        end_at = 39600;
      }
      ∷ [];
  schedule_blocks = [];
}

abbrev query : Query
query = record {
  branch_id = 10;
  professional_id = 40;
  service_id = 30;
  target_date = 0;
  slot_minutes = 30;
  earliest_start = none;
  latest_start = none;
  duration_override_minutes = none;
}

abbrev pub combine : ℕ → ℕ → ℕ → ℕ
combine tz date time = date * 86400 + time

unfoldable pub runs : Unit {0}
unfolding compute_availability checked_duration effective_timezone effective_working_windows_utc
    working_windows_utc get_window_utc effective_duration_and_price
    list_busy_for_professional_on_range list_overlapping occupies blocks is_occupying
    intersect_windows subtract_busy sort_by_start generate_slots slots_of first_candidate ceil_to
runs = tt

abbrev value : {A : Type 0} → A → Result A → A
value d (ok a) = a
value d (err e) = d

abbrev offered : List AvailabilitySlot × Db
unfolding runs
offered = value ([], db) (compute_availability combine zones query db)

offers : compute_availability combine zones query db ≡ ok (offered.0, offered.1)
unfolding runs
offers = refl

compute_availability-IsBookableSlot_example :
    All
      (IsBookableSlot combine zones east fixed db query
        (compute_availability-IsBookableSlot combine zones east fixed query db offers).0)
      offered.0
compute_availability-IsBookableSlot_example =
    (compute_availability-IsBookableSlot combine zones east fixed query db offers).3

-- The hour before the appointment is offered, and the half hour after its start is not.
before_it :
    find (λ s. s.start_at == 32400) offered.0 ≡ some (record { start_at = 32400; end_at = 36000 })
unfolding offered
before_it = refl

within_it : find (λ s. s.start_at == 37800) offered.0 ≡ none
unfolding offered
within_it = refl

-- New York on the day that two o'clock becomes three: the window from midnight to three o'clock is
-- two hours long.
abbrev summer_time : Zones
summer_time = record {
  wall = λ zone at. if ltb at 25200 then at + 68400 else at + 72000;
  utc = λ zone wall. if ltb wall 97200 then wall - 68400 else wall - 72000;
  zone_of = λ at. 0;
}

abbrev spring : List AvailabilitySlot
unfolding runs
spring = generate_slots summer_time ((18000, 25200) ∷ []) 60 30

past_the_window :
    find (λ s. s.start_at == 23400) spring ≡ some (record { start_at = 23400; end_at = 27000 })
unfolding spring
past_the_window = refl

no_length :
    find (λ s. s.start_at == 25200) spring ≡ some (record { start_at = 25200; end_at = 25200 })
unfolding spring
no_length = refl
