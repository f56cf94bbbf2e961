-- ===== src/Booking/Creation/Within.antt =====
-- Where the items of an accepted appointment lie.
use nexasalon_api.Prelude.{
  ℕ, ◌+◌, ◌*◌, ◌≡◌, refl, sym, ap, subst, Bool, true, false, not, ◌&&◌, ◌||◌, Option, none, some,
  List, [], ◌∷◌, ◌++◌, length, length-append, suc, any, if◌then◌else◌, ok, validation, integrity,
  All, All-append, modify, gets, each, raise_if-then, >>=-eq-ok, read-then, ok-injective, arith,
}
use nexasalon_api.Access.Agenda.{ActorContext}
use nexasalon_api.Scheduling.Availability.{list_overlapping}
use nexasalon_api.Orders.Records.{Clock}
use nexasalon_api.Booking.Records.{
  AppointmentItem, AppointmentItemCreate, AppointmentCreate, ItemSnapshot, Reason, business_hours,
  professional_hours, schedule_block, conflict, Db,
}
use nexasalon_api.Booking.Snapshots.{
  list_conflicts, is_nonempty, fits, or_reason, windows_at, own_windows_at, hours_rejection,
  block_rejection, rejection, taken, overlaps_sibling, is_some, checked_item, snapshot,
  build_item_snapshot, build_all_item_snapshots,
}
use nexasalon_api.Booking.Snapshots.Reads.{checked_item-IsCheck, build_item_snapshot-IsCheck}
use nexasalon_api.Booking.Creation.{
  has_conflict, clashes, item_row, put_item, insert_item, put_appointment, create_appointment,
}
use nexasalon_api.Booking.Creation.Accepted.{create_appointment-then}

first_none : (a b : Option Reason) → is_some (or_reason a b) ≡ false → is_some a ≡ false
first_none none b h = refl
first_none (some a) b h = h

second_none : (a b : Option Reason) → is_some (or_reason a b) ≡ false → is_some b ≡ false
second_none none b h = h
second_none (some a) b h = cc

not_raised : (b : Bool) (x : Reason) → is_some (if b then some x else none) ≡ false → b ≡ false
not_raised true x h = cc
not_raised false x h = refl

accepted :
    (b : Bool) (c : Bool) (x y : Reason)
    → is_some (if b then none else (if c then some x else some y)) ≡ false
    → b ≡ true
accepted true c x y h = refl
accepted false true x y h = cc
accepted false false x y h = cc

left_false : (a b : Bool) → (a || b) ≡ false → a ≡ false
left_false a b h = ground arith

right_false : (a b : Bool) → (a || b) ≡ false → b ≡ false
right_false a b h = ground arith

All-clear :
    (P : ItemSnapshot → Type 0) (xs : List ItemSnapshot)
    → All (λ x. has_conflict x ≡ false → P x) xs
    → any has_conflict xs ≡ false
    → All P xs
All-clear P [] h k = tt
All-clear P (x ∷ xs) h k = (
  h.0 (left_false (has_conflict x) (any has_conflict xs) k),
  All-clear P xs h.1 (right_false (has_conflict x) (any has_conflict xs) k),
)

module _ (combine : ℕ → ℕ → ℕ → ℕ) (local_date : ℕ → ℕ → ℕ) where
  -- A time of a professional inside a working window, under no block, and not occupied.
  abbrev pub IsFree : Db → ℕ → ℕ → ℕ → ℕ → Type 0
  IsFree db branch_id professional_id start_at end_at =
      (fits (windows_at combine local_date db branch_id professional_id start_at) start_at end_at
        ≡ true)
      × (is_nonempty (list_overlapping db.schedule professional_id branch_id start_at end_at)
          ≡ false)
      × (is_nonempty (list_conflicts db professional_id start_at end_at none) ≡ false)

  snapshot-IsFree :
      (db : Db) (branch_id : ℕ) (siblings : List ItemSnapshot) (item : AppointmentItemCreate)
      (checked : ℕ × ℕ)
      → is_some (
          or_reason
            (rejection combine local_date db branch_id item.professional_id item.start_at
              (item.start_at + 60 * checked.0))
            (taken combine local_date db item.professional_id item.start_at
              (item.start_at + 60 * checked.0)
              none
              siblings))
        ≡ false
      → IsFree db branch_id item.professional_id item.start_at (item.start_at + 60 * checked.0)
  snapshot-IsFree db branch_id siblings item checked h =
      let end_at : ℕ = item.start_at + 60 * checked.0 in
      let hours =
        hours_rejection combine local_date db branch_id item.professional_id item.start_at end_at in
      let blocked =
        block_rejection combine local_date db branch_id item.professional_id item.start_at end_at in
      let busy =
        taken combine local_date db item.professional_id item.start_at end_at none siblings in
      let unrejected = first_none (or_reason hours blocked) busy h in
      (
        accepted
            (fits (windows_at combine local_date db branch_id item.professional_id item.start_at)
              item.start_at end_at)
            (fits
              (own_windows_at combine local_date db branch_id item.professional_id item.start_at)
              item.start_at end_at)
            business_hours professional_hours (first_none hours blocked unrejected),
        not_raised
            (is_nonempty
              (list_overlapping db.schedule item.professional_id branch_id item.start_at end_at))
            schedule_block (second_none hours blocked unrejected),
        left_false (is_nonempty (list_conflicts db item.professional_id item.start_at end_at none))
            (any (overlaps_sibling combine local_date item.professional_id item.start_at end_at)
              siblings)
            (not_raised
              (is_nonempty (list_conflicts db item.professional_id item.start_at end_at none)
                || any
                    (overlaps_sibling combine local_date item.professional_id item.start_at end_at)
                    siblings)
              conflict (second_none (or_reason hours blocked) busy h)),
      )

  abbrev FreeSnapshot : Db → ℕ → ItemSnapshot → Type 0
  FreeSnapshot db branch_id x = IsFree db branch_id x.professional_id x.start_at x.end_at

  build_item_snapshot-FreeSnapshot :
      (branch_id : ℕ) (siblings : List ItemSnapshot) (item : AppointmentItemCreate) (s : Db)
      {r : ItemSnapshot × Db}
      → build_item_snapshot combine local_date branch_id none false siblings item s ≡ ok r
      → has_conflict r.0 ≡ false
      → FreeSnapshot s branch_id r.0
  unfolding build_item_snapshot
  build_item_snapshot-FreeSnapshot branch_id siblings item s {r} e =
      let (checked, e1, k1) =
        read-then (checked_item combine local_date branch_id item) _ s
          (checked_item-IsCheck combine local_date branch_id item) e in
      let rejected =
        rejection combine local_date s branch_id item.professional_id item.start_at
          (item.start_at + 60 * checked.0) in
      let (passed, k2) =
        raise_if-then (is_some rejected && not false) validation
          (gets (λ (db : Db). snapshot combine local_date db none siblings rejected item checked)) s
          k1 in
      subst (λ x. has_conflict x.0 ≡ false → FreeSnapshot s branch_id x.0) (ok-injective k2)
        (snapshot-IsFree s branch_id siblings item checked)

  -- What is known of the siblings is known of all.
  build_all-FreeSnapshot :
      (branch_id : ℕ) (siblings : List ItemSnapshot) (items : List AppointmentItemCreate) (s : Db)
      {r : List ItemSnapshot × Db}
      → All (λ x. has_conflict x ≡ false → FreeSnapshot s branch_id x) siblings
      → build_all_item_snapshots combine local_date branch_id none false siblings items s ≡ ok r
      → All (λ x. has_conflict x ≡ false → FreeSnapshot s branch_id x) r.0
  unfolding build_all_item_snapshots
  build_all-FreeSnapshot branch_id siblings [] s h e =
      subst (λ x. All (λ y. has_conflict y ≡ false → FreeSnapshot s branch_id y) x.0)
        (ok-injective e) h
  build_all-FreeSnapshot branch_id siblings (item ∷ items) s h e =
      let (x, e1, k) =
        read-then (build_item_snapshot combine local_date branch_id none false siblings item) _ s
          (build_item_snapshot-IsCheck combine local_date branch_id none false siblings item) e in
      build_all-FreeSnapshot branch_id (siblings ++ x ∷ []) items s
        (All-append (λ y. has_conflict y ≡ false → FreeSnapshot s branch_id y) siblings (x ∷ []) h
          (build_item_snapshot-FreeSnapshot branch_id siblings item s e1, tt))
        k

  -- The rows that an appointment puts before those that were there.
  abbrev pub Adds : Db → ℕ → ℕ → List AppointmentItem → List AppointmentItem → ℕ → Type 0
  Adds db branch_id id items before count =
      (new : List AppointmentItem) × (items ≡ new ++ before)
      × (length new ≡ count)
      × All
          (λ i. (i.appointment_id ≡ id) × IsFree db branch_id i.professional_id i.start_at i.end_at)
          new

  insert_items-Adds :
      (db : Db) (branch_id id : ℕ) (before : List AppointmentItem) (snapshots : List ItemSnapshot)
      (s : Db) (count total : ℕ) {r : Unit {0} × Db}
      → All (FreeSnapshot db branch_id) snapshots
      → Adds db branch_id id s.items before count
      → total ≡ count + length snapshots
      → each (insert_item false id) snapshots s ≡ ok r
      → Adds db branch_id id (r.1).items before total
  insert_items-Adds db branch_id id before [] s count total h a n e =
      subst (λ x. Adds db branch_id id (x.1).items before total) (ok-injective e)
        (a.0, a.1, omega (arith, a.2, n), a.3)
  insert_items-Adds db branch_id id before (x ∷ xs) s count total {r} h a n e =
      let (u, s1, e1, e2) =
        >>=-eq-ok (insert_item false id x) (λ _. each (insert_item false id) xs) s e in
      let (free, e3) =
        raise_if-then (any (clashes s.orders.appointments x) s.items) integrity
          (modify (put_item id x)) s e1 in
      insert_items-Adds db branch_id id before xs (put_item id x s) (suc count) total h.1
        (
          item_row s.orders.next_id id x ∷ a.0,
          ap (λ l. item_row s.orders.next_id id x ∷ l) a.1,
          omega (arith, a.2),
          ((refl, h.0), a.3),
        )
        (omega (arith, n))
        (subst (λ y. each (insert_item false id) xs y.1 ≡ ok r) (sym (ok-injective e3)) e2)

  length-build_all :
      (branch_id : ℕ) (siblings : List ItemSnapshot) (items : List AppointmentItemCreate) (s : Db)
      {r : List ItemSnapshot × Db}
      → build_all_item_snapshots combine local_date branch_id none false siblings items s ≡ ok r
      → length r.0 ≡ length siblings + length items
  unfolding build_all_item_snapshots
  length-build_all branch_id siblings [] s e =
      subst (λ x. length x.0 ≡ length siblings + 0) (ok-injective e) (omega arith)
  length-build_all branch_id siblings (item ∷ items) s e =
      let (x, e1, k) =
        read-then (build_item_snapshot combine local_date branch_id none false siblings item) _ s
          (build_item_snapshot-IsCheck combine local_date branch_id none false siblings item) e in
      omega (
        arith,
        length-build_all branch_id (siblings ++ x ∷ []) items s k,
        length-append siblings (x ∷ []),
      )

  -- An appointment that was created without forcing an overlap adds one item of its own for each
  -- item of the request and changes no other, and each lies within the working hours of its
  -- professional as the business hours restrict them, under no schedule block, and where no
  -- occupying item of the professional was.
  pub create_appointment-IsFree :
      (clock : Clock) (actor : ActorContext) (body : AppointmentCreate) (s : Db) (r : ℕ × Db)
      → body.force_overlap ≡ false
      → create_appointment combine local_date clock actor body s ≡ ok r
      → Adds s body.branch_id r.0 (r.1).items s.items (length body.items)
  create_appointment-IsFree clock actor body s r off e =
      let (snapshots, built, clear, written) =
        create_appointment-then combine local_date clock actor body s off e in
      let free =
        All-clear (FreeSnapshot s body.branch_id) snapshots
          (build_all-FreeSnapshot body.branch_id [] body.items s tt built) clear in
      let (u, s1, e1, e2) =
        >>=-eq-ok (each (insert_item false s.orders.next_id) snapshots) _
          (put_appointment actor body s) written in
      subst (λ x. Adds s body.branch_id x.0 (x.1).items s.items (length body.items))
        (ok-injective e2)
        (insert_items-Adds s body.branch_id s.orders.next_id s.items snapshots
          (put_appointment actor body s) 0 (length body.items) free ([], refl, refl, tt)
          (omega (arith, length-build_all body.branch_id [] body.items s built)) e1)
