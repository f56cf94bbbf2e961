-- ===== src/Scheduling/Availability/Safety.antt =====
-- What a client may rely on when it is offered a slot.
use nexasalon_api.Prelude.{
  ℕ, ◌+◌, ◌*◌, ◌≤◌, ◌<◌, ◌≡◌, refl, inl, inr, ◌∙◌, sym, Bool, true, false, not, ◌&&◌, Option, none,
  some, List, [], ◌∷◌, ◌++◌, map, arith, filter, min, max, Some, All, All-imp, All-filter, ap,
  subst, >>=-eq-ok, ok-injective, ok,
}
use nexasalon_api.Scheduling.Windows.{Interval, subtract_busy}
use nexasalon_api.Scheduling.Windows.Coverage.{
  covers, covers-append, covers-subtract_busy, covers-intersect_windows,
}
use nexasalon_api.Scheduling.Slots.{Zones, AvailabilitySlot}
use nexasalon_api.Scheduling.Slots.Grid.{IsFixed, Fits, generate_slots-fit}
use nexasalon_api.Scheduling.Records.{Db, Query}
use nexasalon_api.Scheduling.Availability.{
  occupies, blocks, overlaps, item_interval, block_interval, list_busy_for_professional_on_range,
  list_overlapping, effective_timezone, working_windows_utc, get_window_utc,
  effective_working_windows_utc, restrict, min_start, max_end, slots_in, not_before, not_after,
  clip, checked_duration, compute_availability,
}

-- Every interval that stands in the way of the professional, on any day.
abbrev pub busy_at : Db → Query → List Interval
busy_at db q =
    map item_interval (filter (occupies q.professional_id) db.appointment_items)
    ++ map block_interval (filter (blocks q.professional_id q.branch_id) db.schedule_blocks)

-- The range of a query drops no interval that holds an instant of the range.
covers-filter_range :
    (lo hi : ℕ) (is : List Interval) (t : ℕ)
    → lo ≤ t
    → t < hi
    → covers (filter (overlaps lo hi) is) t ≡ covers is t
unfolding covers
covers-filter_range lo hi [] t h k = refl
covers-filter_range lo hi (i ∷ is) t h k = ground (arith, covers-filter_range lo hi is t h k)

min_start-le : (s : ℕ) (ws : List Interval) → min_start s ws ≤ s
min_start-le s [] = omega arith
min_start-le s (w ∷ ws) = omega (arith, min_start-le (min s w.0) ws)

max_end-ge : (e : ℕ) (ws : List Interval) → e ≤ max_end e ws
max_end-ge e [] = omega arith
max_end-ge e (w ∷ ws) = omega (arith, max_end-ge (max e w.1) ws)

min_start-covered : (s : ℕ) (ws : List Interval) (t : ℕ) → covers ws t ≡ true → min_start s ws ≤ t
unfolding covers
min_start-covered s [] t h = cc
min_start-covered s (w ∷ ws) t h =
    ground (arith, min_start-covered (min s w.0) ws t, min_start-le (min s w.0) ws)

max_end-covered : (e : ℕ) (ws : List Interval) (t : ℕ) → covers ws t ≡ true → t < max_end e ws
unfolding covers
max_end-covered e [] t h = cc
max_end-covered e (w ∷ ws) t h =
    ground (arith, max_end-covered (max e w.1) ws t, max_end-ge (max e w.1) ws)

-- The instant is free: in a window, and in nothing that stands in the way.
abbrev pub IsFree : Db → Query → List Interval → ℕ → Type 0
IsFree db q windows t = (covers windows t ≡ true) × (covers (busy_at db q) t ≡ false)

busy_in_range :
    (db : Db) (q : Query) (lo hi t : ℕ)
    → lo ≤ t
    → t < hi
    → covers
        (list_busy_for_professional_on_range db q.professional_id lo hi
          ++ list_overlapping db q.professional_id q.branch_id lo hi)
        t
      ≡ covers (busy_at db q) t
unfolding list_busy_for_professional_on_range list_overlapping
busy_in_range db q lo hi t h k = ground (
  arith,
  covers-append (list_busy_for_professional_on_range db q.professional_id lo hi)
      (list_overlapping db q.professional_id q.branch_id lo hi) t,
  covers-append (map item_interval (filter (occupies q.professional_id) db.appointment_items))
      (map block_interval (filter (blocks q.professional_id q.branch_id) db.schedule_blocks)) t,
  covers-filter_range lo hi
      (map item_interval (filter (occupies q.professional_id) db.appointment_items)) t h k,
  covers-filter_range lo hi
      (map block_interval (filter (blocks q.professional_id q.branch_id) db.schedule_blocks)) t h k,
)

range-covered :
    (w : Interval) (ws : List Interval) (t : ℕ)
    → covers (w ∷ ws) t ≡ true
    → (min_start w.0 ws ≤ t) × (t < max_end w.1 ws)
unfolding covers
range-covered w ws t h = ground (
  arith,
  min_start-covered w.0 ws t,
  max_end-covered w.1 ws t,
  min_start-le w.0 ws,
  max_end-ge w.1 ws,
)

and_not : (a b : Bool) → (a && not b) ≡ true → (a ≡ true) × (b ≡ false)
and_not a b h = ground arith

and_both : (a b : Bool) → (a && b) ≡ true → (a ≡ true) × (b ≡ true)
and_both a b h = ground arith

IsFree-IsFree :
    (db : Db) (q : Query) (w : Interval) (ws : List Interval) (t : ℕ) (busy : List Interval)
    → covers (subtract_busy (w ∷ ws) busy) t ≡ true
    → ((min_start w.0 ws ≤ t) → (t < max_end w.1 ws) → covers busy t ≡ covers (busy_at db q) t)
    → IsFree db q (w ∷ ws) t
IsFree-IsFree db q w ws t busy h range =
    let parts =
      and_not (covers (w ∷ ws) t) (covers busy t)
        (sym (covers-subtract_busy (w ∷ ws) busy t) ∙ h) in
    let within = range-covered w ws t parts.0 in (parts.0, sym (range within.0 within.1) ∙ parts.1)

Some-Fits-covers :
    (zones : Zones) (east : ℕ → ℕ) (fixed : IsFixed zones east) (duration slot : ℕ)
    (s : AvailabilitySlot) (free : List Interval) (t : ℕ)
    → Some (Fits zones east fixed duration slot s) free
    → s.start_at ≤ t
    → t < s.end_at
    → covers free t ≡ true
unfolding covers
Some-Fits-covers zones east fixed duration slot s [] t m h k = absurd m
Some-Fits-covers zones east fixed duration slot s (f ∷ free) t (inl fits) h k =
    ground (arith, fits.begins, fits.ends)
Some-Fits-covers zones east fixed duration slot s (f ∷ free) t (inr m) h k =
    ground (arith, Some-Fits-covers zones east fixed duration slot s free t m h k)

Some-lasts :
    (zones : Zones) (east : ℕ → ℕ) (fixed : IsFixed zones east) (duration slot : ℕ)
    (s : AvailabilitySlot) (free : List Interval)
    → Some (Fits zones east fixed duration slot s) free
    → s.end_at ≡ s.start_at + duration * 60
Some-lasts zones east fixed duration slot s [] m = absurd m
Some-lasts zones east fixed duration slot s (f ∷ free) (inl fits) = fits.lasts
Some-lasts zones east fixed duration slot s (f ∷ free) (inr m) =
    Some-lasts zones east fixed duration slot s free m

-- The slot has the duration, and every instant of it is free.
abbrev pub IsFreeSlot : Db → Query → List Interval → ℕ → AvailabilitySlot → Type 0
IsFreeSlot db q windows duration s =
    (s.end_at ≡ s.start_at + duration * 60)
    × ((t : ℕ) → s.start_at ≤ t → t < s.end_at → IsFree db q windows t)

slots_in-free :
    (zones : Zones) (east : ℕ → ℕ) (fixed : IsFixed zones east) (db : Db) (q : Query) (duration : ℕ)
    (windows : List Interval)
    → 0 < q.slot_minutes
    → All (IsFreeSlot db q windows duration) (slots_in zones db q duration windows)
unfolding slots_in
slots_in-free zones east fixed db q duration [] pos = tt
slots_in-free zones east fixed db q duration (w ∷ ws) pos =
    All-imp
      (λ s m. (
        Some-lasts zones east fixed duration q.slot_minutes s _ m,
        λ t h k.
            IsFree-IsFree db q w ws t _
              (Some-Fits-covers zones east fixed duration q.slot_minutes s _ t m h k)
              (busy_in_range db q (min_start w.0 ws) (max_end w.1 ws) t),
      ))
      _ (generate_slots-fit zones east fixed duration q.slot_minutes pos _)

not_before-All :
    (P : AvailabilitySlot → Type 0) (o : Option ℕ) (slots : List AvailabilitySlot)
    → All P slots
    → All P (not_before o slots)
unfolding not_before
not_before-All P none slots h = h
not_before-All P (some e) slots h = All-filter P _ slots h

not_after-All :
    (P : AvailabilitySlot → Type 0) (o : Option ℕ) (slots : List AvailabilitySlot)
    → All P slots
    → All P (not_after o slots)
unfolding not_after
not_after-All P none slots h = h
not_after-All P (some l) slots h = All-filter P _ slots h

clip-All :
    (P : AvailabilitySlot → Type 0) (q : Query) (slots : List AvailabilitySlot)
    → All P slots
    → All P (clip q slots)
unfolding clip
clip-All P q slots h = not_after-All P q.latest_start _ (not_before-All P q.earliest_start slots h)

-- The instant lies in the business hours, where any are configured.
abbrev pub Within : Option (List Interval) → ℕ → Type 0
Within none t = Unit
Within (some open_hours) t = covers open_hours t ≡ true

covers-restrict :
    (windows : List Interval) (business : Option (List Interval)) (t : ℕ)
    → covers (restrict windows business) t ≡ true
    → (covers windows t ≡ true) × Within business t
unfolding restrict
covers-restrict [] business t h = unfold covers in cc
covers-restrict (w ∷ ws) none t h = (h, tt)
covers-restrict (w ∷ ws) (some []) t h = unfold covers in cc
covers-restrict (w ∷ ws) (some (a ∷ as')) t h =
    and_both (covers (w ∷ ws) t) (covers (a ∷ as') t)
      (sym (covers-intersect_windows (w ∷ ws) (a ∷ as') t) ∙ h)

checked_duration-ok :
    (q : Query) (db : Db) {d : ℕ} {db' : Db}
    → checked_duration q db ≡ ok (d, db')
    → (db' ≡ db) × (0 < q.slot_minutes)
unfolding checked_duration
checked_duration-ok q db h = ground arith

module _ (combine : ℕ → ℕ → ℕ → ℕ) (zones : Zones) (east : ℕ → ℕ) (fixed : IsFixed zones east) where
  -- The professional works, the salon is open, and nothing stands in the way.
  abbrev pub IsBookable : Db → Query → ℕ → Type 0
  IsBookable db q t =
      let tz = effective_timezone db q.branch_id in
      (covers (working_windows_utc combine db q.professional_id q.target_date tz) t ≡ true)
      × Within (get_window_utc combine db q.target_date tz) t
      × (covers (busy_at db q) t ≡ false)

  abbrev pub IsBookableSlot : Db → Query → ℕ → AvailabilitySlot → Type 0
  IsBookableSlot db q duration s =
      (s.end_at ≡ s.start_at + duration * 60)
      × ((t : ℕ) → s.start_at ≤ t → t < s.end_at → IsBookable db q t)

  IsFreeSlot-IsBookableSlot :
      (db : Db) (q : Query) (duration : ℕ) (s : AvailabilitySlot)
      → IsFreeSlot db q
          (effective_working_windows_utc combine db q.professional_id q.target_date
            (effective_timezone db q.branch_id))
          duration
          s
      → IsBookableSlot db q duration s
  unfolding effective_working_windows_utc
  IsFreeSlot-IsBookableSlot db q duration s (lasts, free) =
      (lasts, λ t h k. let f = free t h k in let w = covers-restrict _ _ t f.0 in (w.0, w.1, f.1))

  -- In zones that keep their distance to the universal time, every slot that `compute_availability`
  -- returns has one and the same duration, and at every instant of it the professional works, the salon is open and no occupying appointment and no
  -- block of the professional, the branch or the organization stands in the way. The call changes
  -- nothing.
  pub compute_availability-IsBookableSlot :
      (q : Query) (db : Db) {slots : List AvailabilitySlot} {db' : Db}
      → compute_availability combine zones q db ≡ ok (slots, db')
      → (duration : ℕ) × (checked_duration q db ≡ ok (duration, db))
        × (db' ≡ db)
        × All (IsBookableSlot db q duration) slots
  unfolding compute_availability
  compute_availability-IsBookableSlot q db {slots} {db'} h =
      let (duration, db1, checked, rest) = >>=-eq-ok (checked_duration q) _ db h in
      let (same, pos) = checked_duration-ok q db checked in
      let result = ok-injective rest in
      let safe : All (IsBookableSlot db q duration) (
          clip q (
            slots_in zones db q duration (
              effective_working_windows_utc combine db q.professional_id q.target_date
                (effective_timezone db q.branch_id)))) =
        clip-All _ q _ (
          All-imp (IsFreeSlot-IsBookableSlot db q duration) _
            (slots_in-free zones east fixed db q duration _ pos)) in
      (
        duration,
        rw same at checked,
        sym (ap (λ r. r.1) result) ∙ same,
        subst (All (IsBookableSlot db q duration)) (rw same at (ap (λ r. r.0) result)) safe,
      )
