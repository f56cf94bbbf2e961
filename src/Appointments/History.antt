-- ===== src/Appointments/History.antt =====
-- The ways in which a status changes: the generic PATCH, the dedicated cancellation, and what
-- closing, cancelling and reopening the linked order do to it (services/appointments.py). A
-- history is a sequence of them.
use nexasalon_api.Prelude.{
  ◌≡◌, refl, ◌≢◌, ◌⊎◌, inl, inr, ◌↔◌, true, none, some, ok, err, List, [], ◌∷◌, arith,
  if◌then◌else◌, Some,
}
use nexasalon_api.Appointments.Status.{
  AppointmentStatus, finished, paid, cancelled, is_operational, is_cancellable_via_linked_order,
  demote_paid_for_reopen, next_status, mark_paid, assert_cancellable,
}

pub data Change : Type 0 where
  manual : AppointmentStatus → Change
  cancel : Change
  order_closed order_cancelled order_reopened : Change

-- One request; a refusal (or a silent no-op of the linked order) leaves the status alone.
unfoldable pub change : Change → AppointmentStatus → AppointmentStatus
change (manual target) s = elim (next_status s target) [ ok t ↦ t | err _ ↦ s ]
change cancel s = elim (assert_cancellable s) [ ok _ ↦ cancelled | err _ ↦ s ]
change order_closed s = elim (mark_paid s) [ ok t ↦ t | err _ ↦ s ]
change order_cancelled s = if is_cancellable_via_linked_order s then cancelled else s
change order_reopened s = elim (demote_paid_for_reopen s) [ some t ↦ t | none ↦ s ]

unfoldable pub changes : List Change → AppointmentStatus → AppointmentStatus
changes [] s = s
changes (c ∷ cs) s = changes cs (change c s)

-- What the proofs about `change` see through.
statuses : Unit {0}
unfolding next_status assert_cancellable mark_paid is_cancellable_via_linked_order
    demote_paid_for_reopen is_operational
statuses = tt

-- A manual change is accepted exactly between two operational statuses, in both directions, and
-- then gives the status asked for.
next_status_iff :
    (current target : AppointmentStatus)
    → (next_status current target ≡ ok target)
      ↔ ((is_operational current ≡ true) × (is_operational target ≡ true))
unfolding statuses
next_status_iff current target = (ground arith, ground arith)

change-cancelled : (c : Change) → change c cancelled ≡ cancelled
unfolding change statuses
change-cancelled c = ground arith

-- Cancellation is final: no sequence of changes leaves it.
pub cancelled_absorbs : (cs : List Change) → changes cs cancelled ≡ cancelled
unfolding changes
cancelled_absorbs [] = refl
cancelled_absorbs (c ∷ cs) = rw (change-cancelled c) (cancelled_absorbs cs)

abbrev pub IsClosing : Change → Type 0
IsClosing c = c ≡ order_closed

abbrev pub IsReopening : Change → Type 0
IsReopening c = c ≡ order_reopened

change-paid : (c : Change) (s : AppointmentStatus) → s ≢ paid → (IsClosing c) ⊎ (change c s ≢ paid)
unfolding change statuses
change-paid c s h = ground arith

change_from_paid : (c : Change) → (IsReopening c) ⊎ (change c paid ≡ paid)
unfolding change statuses
change_from_paid c = ground arith

-- An appointment that was not paid is paid only if the sequence of changes closes its order.
pub paid_through_order :
    (cs : List Change) (s : AppointmentStatus) → s ≢ paid → changes cs s ≡ paid → Some IsClosing cs
unfolding changes
paid_through_order [] s h e = absurd (h e)
paid_through_order (c ∷ cs) s h e = elim (change-paid c s h) [
  | inl closing ↦ inl closing
  | inr still ↦ inr (paid_through_order cs (change c s) still e)
]

-- A paid appointment stays paid unless the sequence of changes reopens its order.
pub paid_until_reopened : (cs : List Change) → (Some IsReopening cs) ⊎ (changes cs paid ≡ paid)
unfolding changes
paid_until_reopened [] = inr refl
paid_until_reopened (c ∷ cs) = elim (change_from_paid c) [
  | inl reopening ↦ inl (inl reopening)
  | inr same ↦ elim (paid_until_reopened cs) [
    | inl later ↦ inl (inr later)
    | inr stays ↦ inr (rw same stays)
  ]
]

-- Closing an order promotes the appointment from every operational status, and reopening it puts
-- the appointment to FINISHED, whatever the status was before.
closed_then_reopened :
    (s : AppointmentStatus)
    → is_operational s ≡ true
    → (change order_closed s ≡ paid) × (change order_reopened (change order_closed s) ≡ finished)
unfolding change statuses
closed_then_reopened s h = ground arith

-- The cancellation through the linked order accepts FINISHED and otherwise exactly what the
-- dedicated cancellation accepts.
order_cancelled_iff :
    (s : AppointmentStatus)
    → (is_cancellable_via_linked_order s ≡ true) ↔ ((s ≡ finished) ⊎ (assert_cancellable s ≡ ok tt))
unfolding statuses
order_cancelled_iff s = (ground arith, ground arith)
