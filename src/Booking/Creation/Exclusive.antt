-- ===== src/Booking/Creation/Exclusive.antt =====
-- The items of the table before and after `create_appointment` of services/appointments.py.
use nexasalon_api.Prelude.{
  ℕ, ◌<◌, ◌≡◌, refl, sym, subst, ◌∙◌, Bool, true, false, ◌&&◌, ◌||◌, List, [], ◌∷◌, any, ◌==◌, ok,
  integrity, All, All-imp, modify, each, raise_if-then, >>=-eq-ok, ok-injective, arith,
}
use nexasalon_api.Access.Agenda.{ActorContext}
use nexasalon_api.Orders.Records.{Appointment, Clock}
use nexasalon_api.Booking.Records.{AppointmentItem, AppointmentCreate, ItemSnapshot, Db}
use nexasalon_api.Booking.Snapshots.{status_of, has_status}
use nexasalon_api.Booking.Creation.{
  is_blocking, meets, clashes, item_row, put_item, insert_item, new_appointment, put_appointment,
  write_appointment, create_appointment,
}
use nexasalon_api.Booking.Creation.Accepted.{create_appointment-then}

-- Two items that are neither cancelled nor no-shows, of one professional, at the same time.
abbrev pub collide : List Appointment → AppointmentItem → AppointmentItem → Bool
collide appointments x i =
    has_status is_blocking (status_of appointments x)
    && (has_status is_blocking (status_of appointments i)
        && (i.professional_id == x.professional_id
            && meets i.start_at i.end_at x.start_at x.end_at))

-- No two items of the table collide.
abbrev pub Exclusive : List Appointment → List AppointmentItem → Type 0
Exclusive appointments [] = Unit
Exclusive appointments (x ∷ xs) =
    (any (collide appointments x) xs ≡ false) × Exclusive appointments xs

-- Every item is of an appointment with an id that was given out.
abbrev pub IsExclusive : Db → Type 0
IsExclusive s =
    Exclusive s.orders.appointments s.items × All (λ i. i.appointment_id < s.orders.next_id) s.items

neither :
    (b c rest rest' : Bool)
    → (c || rest) ≡ false
    → (rest ≡ false → rest' ≡ false)
    → ((b && c) || rest') ≡ false
neither true true rest rest' h f = cc
neither false true rest rest' h f = cc
neither true false rest rest' h f = f h
neither false false rest rest' h f = f h

any-clashes :
    (appointments : List Appointment) (id appointment_id : ℕ) (new : ItemSnapshot)
    (xs : List AppointmentItem)
    → any (clashes appointments new) xs ≡ false
    → any (collide appointments (item_row id appointment_id new)) xs ≡ false
any-clashes appointments id appointment_id new [] h = refl
any-clashes appointments id appointment_id new (x ∷ xs) h =
    neither (has_status is_blocking (status_of appointments (item_row id appointment_id new)))
      (clashes appointments new x) (any (clashes appointments new) xs)
      (any (collide appointments (item_row id appointment_id new)) xs) h
      (any-clashes appointments id appointment_id new xs)

other_status :
    (a : Appointment) (appointments : List Appointment) (i : AppointmentItem)
    → i.appointment_id < a.id
    → status_of (a ∷ appointments) i ≡ status_of appointments i
other_status a appointments i h = rw (different a.id i.appointment_id h) refl
  where
    different : (m n : ℕ) → n < m → (m == n) ≡ false
    different m n h = ground arith

any-collide :
    (a : Appointment) (appointments : List Appointment) (x : AppointmentItem)
    (xs : List AppointmentItem)
    → x.appointment_id < a.id
    → All (λ i. i.appointment_id < a.id) xs
    → any (collide (a ∷ appointments) x) xs ≡ any (collide appointments x) xs
any-collide a appointments x [] h k = refl
any-collide a appointments x (i ∷ xs) h k =
    rw
      (
        other_status a appointments x h,
        other_status a appointments i k.0,
        any-collide a appointments x xs h k.1,
      )
      refl

Exclusive-new :
    (a : Appointment) (appointments : List Appointment) (xs : List AppointmentItem)
    → Exclusive appointments xs
    → All (λ i. i.appointment_id < a.id) xs
    → Exclusive (a ∷ appointments) xs
Exclusive-new a appointments [] e h = tt
Exclusive-new a appointments (x ∷ xs) e h =
    (any-collide a appointments x xs h.0 h.1 ∙ e.0, Exclusive-new a appointments xs e.1 h.1)

put_appointment-IsExclusive :
    (actor : ActorContext) (body : AppointmentCreate) (s : Db)
    → IsExclusive s
    → IsExclusive (put_appointment actor body s)
put_appointment-IsExclusive actor body s h = (
  Exclusive-new (new_appointment s.orders.next_id actor.user_id) s.orders.appointments s.items h.0
      h.1,
  All-imp (λ i k. omega (arith, k)) s.items h.1,
)

-- The trigger lets an item in only where it collides with nothing.
insert_items-IsExclusive :
    (appointment_id : ℕ) (snapshots : List ItemSnapshot) (s : Db) {r : Unit {0} × Db}
    → appointment_id < s.orders.next_id
    → IsExclusive s
    → each (insert_item false appointment_id) snapshots s ≡ ok r
    → IsExclusive r.1
insert_items-IsExclusive appointment_id [] s below h e =
    subst (λ x. IsExclusive x.1) (ok-injective e) h
insert_items-IsExclusive appointment_id (new ∷ snapshots) s {r} below h e =
    let (u, s1, e1, e2) =
      >>=-eq-ok (insert_item false appointment_id new)
        (λ _. each (insert_item false appointment_id) snapshots) s e in
    let (free, e3) =
      raise_if-then (any (clashes s.orders.appointments new) s.items) integrity
        (modify (put_item appointment_id new)) s e1 in
    insert_items-IsExclusive appointment_id snapshots (put_item appointment_id new s)
      (omega (arith, below))
      (
        (any-clashes s.orders.appointments s.orders.next_id appointment_id new s.items free, h.0),
        (omega (arith, below), All-imp (λ i k. omega (arith, k)) s.items h.1),
      )
      (subst (λ x. each (insert_item false appointment_id) snapshots x.1 ≡ ok r)
        (sym (ok-injective e3)) e2)

write_appointment-IsExclusive :
    (actor : ActorContext) (body : AppointmentCreate) (snapshots : List ItemSnapshot) (s : Db)
    {r : ℕ × Db}
    → IsExclusive s
    → write_appointment actor body false snapshots s ≡ ok r
    → IsExclusive r.1
write_appointment-IsExclusive actor body snapshots s {r} h e =
    let (u, s1, e1, e2) =
      >>=-eq-ok (each (insert_item false s.orders.next_id) snapshots) _
        (put_appointment actor body s) e in
    subst (λ x. IsExclusive x.1) (ok-injective e2)
      (insert_items-IsExclusive s.orders.next_id snapshots (put_appointment actor body s)
        (omega arith) (put_appointment-IsExclusive actor body s h) e1)

module _ (combine : ℕ → ℕ → ℕ → ℕ) (local_date : ℕ → ℕ → ℕ) where
  -- When no two items of one professional, neither cancelled nor no-shows, overlap in time, then
  -- none do after an appointment was created that asked for no overlap to be forced.
  pub create_appointment-IsExclusive :
      (clock : Clock) (actor : ActorContext) (body : AppointmentCreate) (s : Db) (r : ℕ × Db)
      → IsExclusive s
      → body.force_overlap ≡ false
      → create_appointment combine local_date clock actor body s ≡ ok r
      → IsExclusive r.1
  create_appointment-IsExclusive clock actor body s r h off e =
      let (snapshots, built, clear, written) =
        create_appointment-then combine local_date clock actor body s off e in
      write_appointment-IsExclusive actor body snapshots s h written
