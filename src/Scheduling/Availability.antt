-- ===== src/Scheduling/Availability.antt =====
-- `compute_availability` of services/availability.py with all that it calls there, and the
-- queries of repositories/appointment_item_repo.py and schedule_block_repo.py that it reads.
pub mod Safety
use nexasalon_api.Prelude.{
  ℕ, ◌+◌, ◌*◌, ◌%◌, Bool, true, false, not, ◌&&◌, ◌||◌, Option, none, some, List, [], ◌∷◌, ◌++◌,
  map, filter, find, leb, ltb, ◌==◌, if◌then◌else◌, min, max, Tx, Error, not_found, validation,
  raise, pure, gets, raise_if, or_raise, ◌>>=◌, ◌>>◌,
}
use nexasalon_api.Appointments.Status.{
  AppointmentStatus, scheduled, confirmed, waiting, in_progress,
}
use nexasalon_api.Scheduling.Windows.{Interval, intersect_windows, subtract_busy, sort_by_start}
use nexasalon_api.Scheduling.Slots.{Zones, AvailabilitySlot, generate_slots}
use nexasalon_api.Scheduling.Records.{
  WorkingHours, BusinessHours, AppointmentItem, ScheduleBlockScope, professional, branch,
  organization, ScheduleBlock, Branch, Professional, Service, ProfessionalService, Db, Query,
}

-- `OCCUPYING_STATUSES` of appointment_item_repo.py
unfoldable pub is_occupying : AppointmentStatus → Bool
is_occupying scheduled = true
is_occupying confirmed = true
is_occupying waiting = true
is_occupying in_progress = true
is_occupying _ = false

-- `func.coalesce(AppointmentItem.status, Appointment.status)`
abbrev pub effective_status : AppointmentItem → AppointmentStatus
effective_status i = elim i.status [ none ↦ i.appointment_status | some s ↦ s ]

-- A comparison with a NULL column is no match.
abbrev pub is_some_eq : Option ℕ → ℕ → Bool
is_some_eq none k = false
is_some_eq (some j) k = j == k

abbrev pub overlaps : ℕ → ℕ → Interval → Bool
overlaps range_start range_end i = ltb i.0 range_end && ltb range_start i.1

-- What the two queries select but for the range: the professional's occupying items, ...
unfoldable pub occupies : ℕ → AppointmentItem → Bool
unfolding is_occupying
occupies professional_id i =
    i.professional_id == professional_id && is_occupying (effective_status i)

-- ... and the blocks of the professional, of the branch and of the organization.
unfoldable pub blocks : ℕ → ℕ → ScheduleBlock → Bool
blocks professional_id branch_id b = elim b.scope [
  | professional ↦ is_some_eq b.professional_id professional_id
  | branch ↦ is_some_eq b.branch_id branch_id
  | organization ↦ true
]

abbrev pub item_interval : AppointmentItem → Interval
item_interval i = (i.start_at, i.end_at)

abbrev pub block_interval : ScheduleBlock → Interval
block_interval b = (b.start_at, b.end_at)

-- `list_busy_for_professional_on_range`, as the intervals that the caller takes
unfoldable pub list_busy_for_professional_on_range : Db → ℕ → ℕ → ℕ → List Interval
unfolding occupies
list_busy_for_professional_on_range db professional_id range_start range_end =
    filter (overlaps range_start range_end)
      (map item_interval (filter (occupies professional_id) db.appointment_items))

-- `list_overlapping`
unfoldable pub list_overlapping : Db → ℕ → ℕ → ℕ → ℕ → List Interval
unfolding blocks
list_overlapping db professional_id branch_id range_start range_end =
    filter (overlaps range_start range_end)
      (map block_interval (filter (blocks professional_id branch_id) db.schedule_blocks))

unfoldable pub effective_timezone : Db → ℕ → ℕ
effective_timezone db branch_id = elim (find (λ b. b.id == branch_id) db.branches) [
  | none ↦ db.timezone
  | some b ↦ elim b.timezone [ none ↦ db.timezone | some tz ↦ tz ]
]

-- An override of 0 minutes is falsy in Python, a price of 0 is not `None`.
unfoldable pub effective_duration_and_price : Service → Option ProfessionalService → ℕ × ℕ
effective_duration_and_price service none =
    (service.default_duration_minutes, service.default_price)
effective_duration_and_price service (some ps) = (
  elim ps.duration_override_minutes [
    | none ↦ service.default_duration_minutes
    | some d ↦ if d == 0 then service.default_duration_minutes else d
  ],
  elim ps.price_override [ none ↦ service.default_price | some p ↦ p ],
)

-- `(target_date.weekday() + 1) % 7`; Python's `weekday` of an ordinal is `(ordinal + 6) % 7`.
abbrev pub our_weekday : ℕ → ℕ
our_weekday target_date = ((target_date + 6) % 7 + 1) % 7

works_on : ℕ → ℕ → WorkingHours → Bool
works_on professional_id target_date wh =
    wh.professional_id == professional_id && (wh.is_active && wh.weekday == our_weekday target_date)

-- What `effective_working_windows_utc` returns for the journey and the business window: nothing
-- on a day without journey, the journey where no business hours are configured, nothing on a
-- closed day, and the intersection otherwise.
restrict : List Interval → Option (List Interval) → List Interval
restrict [] business_window = []
restrict (w ∷ ws) none = w ∷ ws
restrict (w ∷ ws) (some []) = []
restrict (w ∷ ws) (some (a ∷ as')) = intersect_windows (w ∷ ws) (a ∷ as')

-- `min(w[0] for w in windows)`, `max(w[1] for w in windows)`, for the windows after the first.
abbrev pub min_start : ℕ → List Interval → ℕ
min_start s [] = s
min_start s (w ∷ ws) = min_start (min s w.0) ws

abbrev pub max_end : ℕ → List Interval → ℕ
max_end e [] = e
max_end e (w ∷ ws) = max_end (max e w.1) ws

-- What the function computes once the arguments are validated.
slots_in : Zones → Db → Query → ℕ → List Interval → List AvailabilitySlot
unfolding list_busy_for_professional_on_range list_overlapping
slots_in zones db q duration_minutes [] = []
slots_in zones db q duration_minutes (w ∷ ws) =
    let range_start = min_start w.0 ws in
    let range_end = max_end w.1 ws in
    let busy =
      list_busy_for_professional_on_range db q.professional_id range_start range_end
      ++ list_overlapping db q.professional_id q.branch_id range_start range_end in
    generate_slots zones (subtract_busy (w ∷ ws) busy) duration_minutes q.slot_minutes

not_before : Option ℕ → List AvailabilitySlot → List AvailabilitySlot
not_before none slots = slots
not_before (some earliest) slots = filter (λ s. leb earliest s.start_at) slots

not_after : Option ℕ → List AvailabilitySlot → List AvailabilitySlot
not_after none slots = slots
not_after (some latest) slots = filter (λ s. leb s.start_at latest) slots

clip : Query → List AvailabilitySlot → List AvailabilitySlot
unfolding not_before not_after
clip q slots = not_after q.latest_start (not_before q.earliest_start slots)

-- The guards, in their order, and the duration that they settle.
unfoldable pub checked_duration : Query → Tx Db ℕ
unfolding effective_duration_and_price
checked_duration q = do
  raise_if (not (q.slot_minutes == 15 || q.slot_minutes == 30)) validation
  found_branch ← gets (λ db. find (λ b. b.id == q.branch_id) db.branches)
  branch_row ← or_raise found_branch not_found
  found_professional ← gets (λ db. find (λ p. p.id == q.professional_id) db.professionals)
  p ← or_raise found_professional not_found
  raise_if (elim p.branch_id [ none ↦ false | some b ↦ not (b == q.branch_id) ]) validation
  found_service ← gets (λ db. find (λ s. s.id == q.service_id) db.services)
  service ← or_raise found_service not_found
  found_link ← gets (λ db.
      find (λ l. l.professional_id == q.professional_id && l.service_id == q.service_id)
        db.professional_services)
  link ← or_raise found_link validation
  raise_if (not link.is_active) validation
  pure (elim q.duration_override_minutes [
    | none ↦ (effective_duration_and_price service (some link)).0
    | some d ↦ d
  ])

-- `combine tz date time` is `datetime.combine(date, time, tzinfo=tz)` as an instant.
module _ (combine : ℕ → ℕ → ℕ → ℕ) where
  unfoldable pub working_windows_utc : Db → ℕ → ℕ → ℕ → List Interval
  unfolding works_on
  working_windows_utc db professional_id target_date tz = sort_by_start (
      map (λ wh. (combine tz target_date wh.start_time, combine tz target_date wh.end_time))
        (filter (works_on professional_id target_date) db.working_hours))

  open_window : ℕ → ℕ → BusinessHours → List Interval
  open_window target_date tz row =
      if row.is_open
      then elim row.start_time [
        | none ↦ []
        | some s ↦ elim row.end_time [
          | none ↦ []
          | some e ↦ (combine tz target_date s, combine tz target_date e) ∷ []
        ]
      ]
      else []

  -- `get_window_utc` of services/business_hours.py
  unfoldable pub get_window_utc : Db → ℕ → ℕ → Option (List Interval)
  unfolding open_window
  get_window_utc db target_date tz = elim db.business_hours [
    | [] ↦ none
    | r ∷ rs ↦ elim (find (λ h. h.weekday == our_weekday target_date) (r ∷ rs)) [
      | none ↦ some []
      | some row ↦ some (open_window target_date tz row)
    ]
  ]

  unfoldable pub effective_working_windows_utc : Db → ℕ → ℕ → ℕ → List Interval
  unfolding restrict
  effective_working_windows_utc db professional_id target_date tz =
      restrict (working_windows_utc db professional_id target_date tz)
        (get_window_utc db target_date tz)

  unfoldable pub compute_availability : Zones → Query → Tx Db (List AvailabilitySlot)
  unfolding checked_duration clip slots_in effective_working_windows_utc effective_timezone
  compute_availability zones q = do
    duration_minutes ← checked_duration q
    tz ← gets (λ db. effective_timezone db q.branch_id)
    windows ← gets (λ db. effective_working_windows_utc db q.professional_id q.target_date tz)
    slots ← gets (λ db. slots_in zones db q duration_minutes windows)
    pure (clip q slots)
