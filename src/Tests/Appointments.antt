-- ===== src/Tests/Appointments.antt =====
-- The statuses of one appointment.
use nexasalon_api.Prelude.{◌≡◌, ◌≢◌, refl, ◌⊎◌, arith, [], ◌∷◌, Some}
use nexasalon_api.Appointments.Status.{
  AppointmentStatus, scheduled, confirmed, waiting, finished, paid, cancelled, next_status,
  is_operational, is_cancellable_via_linked_order, assert_cancellable,
}
use nexasalon_api.Appointments.History.{
  manual, cancel, order_closed, change, changes, cancelled_absorbs, IsClosing, IsReopening,
  paid_through_order, paid_until_reopened,
}
use nexasalon_api.Appointments.Status as Machine

runs : Unit {0}
unfolding change changes next_status is_operational is_cancellable_via_linked_order
    assert_cancellable Machine.mark_paid Machine.demote_paid_for_reopen
runs = tt

cancelled_absorbs_example : changes (manual confirmed ∷ order_closed ∷ []) cancelled ≡ cancelled
cancelled_absorbs_example = cancelled_absorbs (manual confirmed ∷ order_closed ∷ [])

not_paid : scheduled ≢ paid
not_paid h = ground arith

paid_now : changes (manual finished ∷ order_closed ∷ []) scheduled ≡ paid
unfolding runs
paid_now = refl

paid_through_order_example : Some IsClosing (manual finished ∷ order_closed ∷ [])
paid_through_order_example =
    paid_through_order (manual finished ∷ order_closed ∷ []) scheduled not_paid paid_now

paid_until_reopened_example :
    (Some IsReopening (cancel ∷ manual waiting ∷ []))
    ⊎ (changes (cancel ∷ manual waiting ∷ []) paid ≡ paid)
paid_until_reopened_example = paid_until_reopened (cancel ∷ manual waiting ∷ [])
