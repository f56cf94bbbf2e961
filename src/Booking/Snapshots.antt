-- ===== src/Booking/Snapshots.antt =====
-- The validation of the items of a request in services/appointments.py, and `list_conflicts` of
-- repositories/appointment_item_repo.py. `local_date` is the day of an instant in a time zone, and
-- `combine` a time of a day in it as an instant.
pub mod Reads
use nexasalon_api.Prelude.{
  ℕ, ◌+◌, ◌*◌, Bool, true, false, not, ◌&&◌, ◌||◌, Option, none, some, List, [], ◌∷◌, ◌++◌, find,
  filter, any, ltb, leb, ◌==◌, if◌then◌else◌, Tx, ok, err, not_found, validation, forbidden, pure,
  gets, raise_if, or_raise, ◌>>=◌, ◌>>◌,
}
use nexasalon_api.Appointments.Status.{AppointmentStatus}
use nexasalon_api.Access.Records.{agenda_edit, agenda_force_overlap}
use nexasalon_api.Access.Permissions.{contains}
use nexasalon_api.Scheduling.Windows.{Interval}
use nexasalon_api.Scheduling.Availability.{
  is_occupying, list_overlapping, effective_timezone, effective_duration_and_price,
  working_windows_utc, effective_working_windows_utc,
}
use nexasalon_api.Scheduling.Records.{Professional, Service, ProfessionalService}
use nexasalon_api.Orders.Records.{Appointment}
use nexasalon_api.Booking.Records.{
  AppointmentItem, AppointmentItemCreate, Reason, professional_hours, business_hours,
  schedule_block, conflict, ItemSnapshot, Db,
}

-- `coalesce(AppointmentItem.status, Appointment.status)`, where the join finds the appointment.
abbrev pub own_or : Option AppointmentStatus → AppointmentStatus → AppointmentStatus
own_or none status = status
own_or (some own) status = own

abbrev pub status_by : Option Appointment → AppointmentItem → Option AppointmentStatus
status_by none i = none
status_by (some a) i = some (own_or i.status a.status)

abbrev pub status_of : List Appointment → AppointmentItem → Option AppointmentStatus
status_of appointments i = status_by (find (λ a. a.id == i.appointment_id) appointments) i

abbrev pub has_status : (AppointmentStatus → Bool) → Option AppointmentStatus → Bool
has_status p none = false
has_status p (some status) = p status

-- An occupying item of the professional at that time, of another appointment.
abbrev pub conflicts_with : List Appointment → ℕ → ℕ → ℕ → Option ℕ → AppointmentItem → Bool
conflicts_with appointments professional_id start_at end_at exclude i =
    i.professional_id == professional_id
    && (has_status is_occupying (status_of appointments i)
        && ((ltb i.start_at end_at && ltb start_at i.end_at)
            && not (is_excluded exclude i.appointment_id)))
  where
    is_excluded : Option ℕ → ℕ → Bool
    is_excluded none id = false
    is_excluded (some e) id = id == e

unfoldable pub list_conflicts : Db → ℕ → ℕ → ℕ → Option ℕ → List AppointmentItem
unfolding is_occupying
list_conflicts db professional_id start_at end_at exclude =
    filter (conflicts_with db.orders.appointments professional_id start_at end_at exclude) db.items

abbrev pub is_nonempty : {A : Type 0} → List A → Bool
is_nonempty [] = false
is_nonempty (x ∷ xs) = true

-- `any(w_start <= start_at and end_at <= w_end for ...)`
abbrev pub fits : List Interval → ℕ → ℕ → Bool
fits windows start_at end_at = any (λ w. leb w.0 start_at && leb end_at w.1) windows

abbrev pub or_reason : Option Reason → Option Reason → Option Reason
or_reason none b = b
or_reason (some a) b = some a

abbrev pub is_some {ℓ} : {A : Type ℓ} → Option A → Bool
is_some none = false
is_some (some a) = true

-- Professionals with a branch serve in that branch only.
abbrev pub serves_elsewhere : Option ℕ → ℕ → Bool
serves_elsewhere none branch_id = false
serves_elsewhere (some b) branch_id = not (b == branch_id)

abbrev pub performs : Option ProfessionalService → Bool
performs none = false
performs (some link) = link.is_active

abbrev pub override_or : Option ℕ → ℕ → ℕ
override_or none n = n
override_or (some o) n = o

-- `_resolve_force_overlap`
unfoldable pub resolve_force_overlap : List ℕ → Bool → Tx Db Bool
resolve_force_overlap permissions false = pure false
resolve_force_overlap permissions true =
    raise_if
      (not (contains agenda_force_overlap permissions) && not (contains agenda_edit permissions))
      forbidden
    >> pure true

module _ (combine : ℕ → ℕ → ℕ → ℕ) (local_date : ℕ → ℕ → ℕ) where
  -- The windows of `_assert_within_working_hours`.
  abbrev pub windows_at : Db → ℕ → ℕ → ℕ → List Interval
  windows_at db branch_id professional_id start_at =
      let tz = effective_timezone db.schedule branch_id in
      effective_working_windows_utc combine db.schedule professional_id (local_date tz start_at) tz

  abbrev pub own_windows_at : Db → ℕ → ℕ → ℕ → List Interval
  own_windows_at db branch_id professional_id start_at =
      let tz = effective_timezone db.schedule branch_id in
      working_windows_utc combine db.schedule professional_id (local_date tz start_at) tz

  -- `_assert_within_working_hours`, as the reason that it raises
  abbrev pub hours_rejection : Db → ℕ → ℕ → ℕ → ℕ → Option Reason
  hours_rejection db branch_id professional_id start_at end_at =
      if fits (windows_at db branch_id professional_id start_at) start_at end_at
      then none
      else (if fits (own_windows_at db branch_id professional_id start_at) start_at end_at
          then some business_hours
          else some professional_hours)

  -- `_assert_no_schedule_block`
  abbrev pub block_rejection : Db → ℕ → ℕ → ℕ → ℕ → Option Reason
  block_rejection db branch_id professional_id start_at end_at =
      if is_nonempty (list_overlapping db.schedule professional_id branch_id start_at end_at)
      then some schedule_block
      else none

  abbrev pub rejection : Db → ℕ → ℕ → ℕ → ℕ → Option Reason
  rejection db branch_id professional_id start_at end_at =
      or_reason (hours_rejection db branch_id professional_id start_at end_at)
        (block_rejection db branch_id professional_id start_at end_at)

  abbrev pub overlaps_sibling : ℕ → ℕ → ℕ → ItemSnapshot → Bool
  overlaps_sibling professional_id start_at end_at s =
      s.professional_id == professional_id && (ltb s.start_at end_at && ltb start_at s.end_at)

  -- An item that is taken already, in the table or by an earlier item of the request.
  abbrev pub taken : Db → ℕ → ℕ → ℕ → Option ℕ → List ItemSnapshot → Option Reason
  taken db professional_id start_at end_at exclude siblings =
      if is_nonempty (list_conflicts db professional_id start_at end_at exclude)
        || any (overlaps_sibling professional_id start_at end_at) siblings
      then some conflict
      else none

  -- The duration and the price of an item whose professional and service are valid.
  unfoldable pub checked_item : ℕ → AppointmentItemCreate → Tx Db (ℕ × ℕ)
  unfolding effective_duration_and_price
  checked_item branch_id item = do
    found_professional ←
        gets (λ db. find (λ p. p.id == item.professional_id) db.schedule.professionals)
    p ← or_raise found_professional not_found
    raise_if (not p.is_active) validation
    raise_if (serves_elsewhere p.branch_id branch_id) validation
    found_service ← gets (λ db. find (λ s. s.id == item.service_id) db.schedule.services)
    service ← or_raise found_service not_found
    raise_if (not service.is_active) validation
    link ← gets (λ db.
        find (λ l. l.professional_id == item.professional_id && l.service_id == item.service_id)
          db.schedule.professional_services)
    raise_if (not (performs link)) validation
    pure (
      override_or item.duration_override (effective_duration_and_price service link).0,
      override_or item.price_override (effective_duration_and_price service link).1,
    )

  abbrev pub snapshot :
      Db
      → Option ℕ
      → List ItemSnapshot
      → Option Reason
      → AppointmentItemCreate
      → ℕ × ℕ
      → ItemSnapshot
  snapshot db exclude siblings rejected item (duration, price) = record {
    professional_id = item.professional_id;
    service_id = item.service_id;
    start_at = item.start_at;
    end_at = item.start_at + 60 * duration;
    duration_minutes = duration;
    price = price;
    conflict_reason = or_reason rejected (
        taken db item.professional_id item.start_at (item.start_at + 60 * duration) exclude
          siblings);
  }

  -- Without `force_overlap` a rejection is raised at once.
  unfoldable pub build_item_snapshot :
      ℕ → Option ℕ → Bool → List ItemSnapshot → AppointmentItemCreate → Tx Db ItemSnapshot
  unfolding checked_item
  build_item_snapshot branch_id exclude force_overlap siblings item = do
    checked ← checked_item branch_id item
    rejected ← gets (λ db.
        rejection db branch_id item.professional_id item.start_at (item.start_at + 60 * checked.0))
    raise_if (is_some rejected && not force_overlap) validation
    gets (λ db. snapshot db exclude siblings rejected item checked)

  -- `_build_all_item_snapshots`: the items before are the siblings of the next.
  unfoldable pub build_all_item_snapshots :
      ℕ
      → Option ℕ
      → Bool
      → List ItemSnapshot
      → List AppointmentItemCreate
      → Tx Db (List ItemSnapshot)
  build_all_item_snapshots branch_id exclude force_overlap siblings [] = pure siblings
  build_all_item_snapshots branch_id exclude force_overlap siblings (item ∷ items) =
      build_item_snapshot branch_id exclude force_overlap siblings item >>= λ s.
      build_all_item_snapshots branch_id exclude force_overlap (siblings ++ s ∷ []) items
