-- ===== src/Appointments/Status.antt =====
-- services/appointment_state_machine.py, function by function, over `AppointmentStatus`
-- (models/enums.py). The two `frozenset` constants are tests on a status. Times are instants in
-- seconds; `datetime.now` is an argument.
use nexasalon_api.Prelude.{
  ℕ, ◌+◌, ◌*◌, Bool, true, false, Option, none, some, validation, Result, ok, err, leb,
  if◌then◌else◌,
}

pub data AppointmentStatus : Type 0 where
  scheduled confirmed waiting in_progress finished paid cancelled no_show : AppointmentStatus

pub AppointmentStatus-discrete : Discrete AppointmentStatus
AppointmentStatus-discrete = hlevel

-- `OPERATIONAL_STATUSES`
unfoldable pub is_operational : AppointmentStatus → Bool
is_operational paid = false
is_operational cancelled = false
is_operational _ = true

-- `_CANCELLABLE_FROM`
unfoldable pub is_cancellable : AppointmentStatus → Bool
is_cancellable scheduled = true
is_cancellable confirmed = true
is_cancellable waiting = true
is_cancellable in_progress = true
is_cancellable _ = false

-- `_CANCELLABLE_FROM_VIA_LINKED_ORDER`
unfoldable pub is_cancellable_via_linked_order : AppointmentStatus → Bool
unfolding is_cancellable
is_cancellable_via_linked_order finished = true
is_cancellable_via_linked_order s = is_cancellable s

unfoldable pub demote_paid_for_reopen : AppointmentStatus → Option AppointmentStatus
demote_paid_for_reopen paid = some finished
demote_paid_for_reopen _ = none

-- `_RESCHEDULABLE_FROM`
unfoldable pub is_reschedulable : AppointmentStatus → Bool
is_reschedulable scheduled = true
is_reschedulable confirmed = true
is_reschedulable waiting = true
is_reschedulable in_progress = true
is_reschedulable _ = false

-- The tests of `next_status` on `current`, once `target` is neither CANCELLED nor PAID.
from_manual : AppointmentStatus → AppointmentStatus → Result AppointmentStatus
from_manual paid target = err validation
from_manual cancelled target = err validation
from_manual _ target = ok target

unfoldable pub next_status : AppointmentStatus → AppointmentStatus → Result AppointmentStatus
unfolding from_manual
next_status current cancelled = err validation
next_status current paid = err validation
next_status current target = from_manual current target

unfoldable pub mark_paid : AppointmentStatus → Result AppointmentStatus
mark_paid paid = err validation
mark_paid cancelled = err validation
mark_paid _ = ok paid

unfoldable pub assert_cancellable : AppointmentStatus → Result (Unit {0})
unfolding is_cancellable
assert_cancellable s = if is_cancellable s then ok tt else err validation

unfoldable pub assert_reschedulable : AppointmentStatus → Result (Unit {0})
unfolding is_reschedulable
assert_reschedulable s = if is_reschedulable s then ok tt else err validation

-- `appointment_start_at - now >= timedelta(hours=online_change_min_hours)`, in seconds. The
-- difference of two instants may be negative, so the test is written as a sum.
unfoldable pub within_online_change_window : ℕ → ℕ → Option ℕ → Bool
within_online_change_window min_hours now none = false
within_online_change_window min_hours now (some start_at) = leb (now + min_hours * 3600) start_at

unfoldable pub assert_online_change_window : ℕ → ℕ → Option ℕ → Result (Unit {0})
unfolding within_online_change_window
assert_online_change_window min_hours now start_at =
    if within_online_change_window min_hours now start_at then ok tt else err validation
