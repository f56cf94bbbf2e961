-- ===== src/Scheduling/Slots/Grid.antt =====
-- The generated slots, the free intervals and the grid of the day (services/availability.py).
use nexasalon_api.Prelude.{
  ℕ, Bool, ◌==◌, if◌then◌else◌, zero, suc, ◌+◌, ◌-◌, ◌*◌, ◌/◌, ◌≤◌, ◌<◌, ◌≡◌, inl, inr, List, [],
  ◌∷◌, arith, leb, Bool-cases, Some, All, All-imp, All-append, Some-append_left, Some-append_right,
  leb→le, le→leb, ◌∙◌, subst, sym, ap,
}
use nexasalon_api.Scheduling.Windows.{Interval}
use nexasalon_api.Scheduling.Slots.{
  Zones, AvailabilitySlot, midnight, ends_by, slots_from, first_candidate, slots_of, generate_slots,
}

-- The number of grid steps of `ceil_to`.
abbrev ceil_steps : ℕ → ℕ → ℕ
ceil_steps offset slot = (offset + slot - 1) / slot

ceil_to-ge : (offset slot : ℕ) → 0 < slot → offset ≤ ceil_steps offset slot * slot
ceil_to-ge offset slot h = grind arith

ceil_steps-least : (offset slot k : ℕ) → 0 < slot → offset ≤ k * slot → ceil_steps offset slot ≤ k
ceil_steps-least offset slot k h le = grind arith

mul-split : (a b g : ℕ) → a ≤ b → a * g + (b - a) * g ≡ b * g
mul-split a b g h =
    let whole : b ≡ a + (b - a) = omega arith in
    let distribute : (a + (b - a)) * g ≡ a * g + (b - a) * g = omega arith in
    sym distribute ∙ ap (λ (n : ℕ). n * g) (sym whole)

-- The zones keep their distance to the universal time: `east` is how far a clock is ahead of the
-- instants.
pub record IsFixed (zones : Zones) (east : ℕ → ℕ) : Type 0 where
  pub to_wall : (zone at : ℕ) → zones.wall zone at ≡ at + east zone
  pub to_utc : (zone wall : ℕ) → zones.utc zone wall ≡ wall - east zone

either_way :
    (same : Bool) (e c end : ℕ)
    → (if same then leb c (end + e) else leb (c - e) end) ≡ leb c (end + e)
either_way same e c end = ground arith

abbrev pub StartsAt : ℕ → AvailabilitySlot → Type 0
StartsAt t s = s.start_at ≡ t

module _ (zones : Zones) (east : ℕ → ℕ) (fixed : IsFixed zones east) where
  ends_by-leb : (zone c end : ℕ) → ends_by zones zone c end ≡ leb c (end + east zone)
  ends_by-leb zone c end =
      rw (fixed.to_wall zone end, fixed.to_utc zone c)
        (either_way (zone == zones.zone_of end) (east zone) c end)

  -- The k-th candidate of the loop, and when it is offered.
  abbrev IsSlot : ℕ → ℕ → ℕ → ℕ → ℕ → AvailabilitySlot → Type 0
  IsSlot zone first free_end duration step s =
      (k : ℕ) × (s.start_at ≡ first + k * step - east zone)
      × (s.end_at ≡ first + k * step + duration - east zone)
      × (first + k * step + duration ≤ free_end + east zone)

  IsSlot-shift :
      (zone first free_end duration step : ℕ) (s : AvailabilitySlot)
      → IsSlot zone (first + step) free_end duration step s
      → IsSlot zone first free_end duration step s
  IsSlot-shift zone first free_end duration step s (k, start, len, fits) =
      let shift : first + step + k * step ≡ first + suc k * step = grind arith in
      (
        suc k,
        start ∙ ap (λ c. c - east zone) shift,
        len ∙ ap (λ c. c + duration - east zone) shift,
        omega (arith, fits, shift),
      )

  slots_from_sound :
      (zone fuel first free_end duration step : ℕ)
      → All
          (IsSlot zone first free_end duration step)
          (slots_from zones zone fuel first free_end duration step)
  unfolding slots_from
  slots_from_sound zone zero first free_end duration step = tt
  slots_from_sound zone (suc fuel) first free_end duration step =
      elim (Bool-cases (leb (first + duration) (free_end + east zone))) [
        | inl e ↦ rw (ends_by-leb zone (first + duration) free_end ∙ e) (
          (
            0,
            fixed.to_utc zone first ∙ omega arith,
            fixed.to_utc zone (first + duration) ∙ omega arith,
            omega (arith, leb→le _ _ e),
          ),
          All-imp (IsSlot-shift zone first free_end duration step) _
              (slots_from_sound zone fuel (first + step) free_end duration step),
        )
        | inr e ↦ rw (ends_by-leb zone (first + duration) free_end ∙ e) tt
      ]

  slots_from_complete :
      (k zone fuel first free_end duration step : ℕ)
      → 0 < step
      → free_end + east zone < fuel + first
      → first + k * step + duration ≤ free_end + east zone
      → Some
          (StartsAt (zones.utc zone (first + k * step)))
          (slots_from zones zone fuel first free_end duration step)
  unfolding slots_from
  slots_from_complete k zone zero first free_end duration step h enough fits = absurd (omega arith)
  slots_from_complete zero zone (suc fuel) first free_end duration step h enough fits =
      let now : first ≡ first + 0 * step = omega arith in
      rw
        (ends_by-leb zone (first + duration) free_end
          ∙ le→leb (first + duration) (free_end + east zone) (omega arith))
        (inl (ap (zones.utc zone) now))
  slots_from_complete (suc k) zone (suc fuel) first free_end duration step h enough fits =
      let shift : first + step + k * step ≡ first + suc k * step = grind arith in
      rw
        (ends_by-leb zone (first + duration) free_end
          ∙ le→leb (first + duration) (free_end + east zone) (omega arith))
        (inr (
          subst
            (λ t.
              Some (StartsAt (zones.utc zone t))
                (slots_from zones zone fuel (first + step) free_end duration step))
            shift
            (slots_from_complete k zone fuel (first + step) free_end duration step h (omega arith)
              (omega (arith, shift)))))

module _ (zones : Zones) (east : ℕ → ℕ) (fixed : IsFixed zones east) (duration slot : ℕ) where
  -- The slot lies in the free interval, has the duration asked for, and starts, on the clock of the
  -- zone of the interval's start, a whole number of grid steps after the midnight before it.
  pub record Fits (s : AvailabilitySlot) (free : Interval) : Type 0 where
    pub begins : free.0 ≤ s.start_at
    pub ends : s.end_at ≤ free.1
    pub lasts : s.end_at ≡ s.start_at + duration * 60
    pub steps : ℕ
    pub on_grid :
        zones.wall (zones.zone_of free.0) s.start_at
        ≡ midnight (zones.wall (zones.zone_of free.0) free.0) + steps * (slot * 60)

  abbrev grid : ℕ
  grid = slot * 60

  abbrev first_step : ℕ → ℕ
  first_step start = ceil_steps (start - midnight start) grid

  first_candidate-ge : (start : ℕ) → 0 < slot → start ≤ midnight start + first_step start * grid
  first_candidate-ge start pos =
      let up : start - midnight start ≤ first_step start * grid =
        ceil_to-ge (start - midnight start) grid (omega arith) in
      omega (arith, up)

  IsSlot-Fits :
      (free : Interval)
      → 0 < slot
      → (s : AvailabilitySlot)
      → IsSlot zones east fixed
          (zones.zone_of free.0)
          (first_candidate zones (zones.wall (zones.zone_of free.0) free.0) slot)
          free.1
          (duration * 60)
          grid
          s
      → Fits s free
  unfolding first_candidate
  IsSlot-Fits free pos s (k, start, len, fits) =
      let zone = zones.zone_of free.0 in
      let w = zones.wall zone free.0 in
      let c = midnight w + first_step w * grid + k * grid in
      let here : w ≡ free.0 + east zone = fixed.to_wall zone free.0 in
      let late : w ≤ midnight w + first_step w * grid = first_candidate-ge w pos in
      let aligned : c ≡ midnight w + (first_step w + k) * grid = grind arith in
      record {
        begins = omega (arith, start, here, late);
        ends = omega (arith, len, fits);
        lasts = omega (arith, start, len, here, late);
        steps = first_step w + k;
        on_grid = fixed.to_wall zone s.start_at ∙ omega (arith, start, here, late, aligned);
      }

  slots_of-fit :
      0 < slot → (free : Interval) → All (λ s. Fits s free) (slots_of zones free duration slot)
  slots_of-fit pos free =
      unfold slots_of in
      All-imp (IsSlot-Fits free pos) _ (
        slots_from_sound zones east fixed (zones.zone_of free.0)
          (suc (zones.wall (zones.zone_of free.0) free.1 + 86400))
          (first_candidate zones (zones.wall (zones.zone_of free.0) free.0) slot) free.1
          (duration * 60) grid)

  -- The candidate of a free interval after `j` steps from the midnight before it, on its clock.
  abbrev pub candidate : Interval → ℕ → ℕ
  candidate free j = midnight (zones.wall (zones.zone_of free.0) free.0) + j * (slot * 60)

  slots_of_complete :
      0 < slot
      → (free : Interval) (j : ℕ) → zones.wall (zones.zone_of free.0) free.0 ≤ candidate free j
      → candidate free j + duration * 60 ≤ zones.wall (zones.zone_of free.0) free.1
      → Some
          (StartsAt (zones.utc (zones.zone_of free.0) (candidate free j)))
          (slots_of zones free duration slot)
  unfolding slots_of first_candidate
  slots_of_complete pos free j from fits =
      let zone = zones.zone_of free.0 in
      let w = zones.wall zone free.0 in
      let last : zones.wall zone free.1 ≡ free.1 + east zone = fixed.to_wall zone free.1 in
      let least : first_step w ≤ j =
        ceil_steps-least (w - midnight w) grid j (omega arith) (omega arith) in
      let split : midnight w + first_step w * grid + (j - first_step w) * grid
          ≡ midnight w + j * grid =
        omega (arith, mul-split (first_step w) j grid least) in
      subst (λ t. Some (StartsAt (zones.utc zone t)) (slots_of zones free duration slot)) split
        (slots_from_complete zones east fixed (j - first_step w) zone
          (suc (zones.wall zone free.1 + 86400)) (midnight w + first_step w * grid) free.1
          (duration * 60) grid (omega arith) (omega (arith, last)) (omega (arith, split, last)))

  -- In zones that keep their distance to the universal time, and for a positive grid step, every
  -- slot offered fits one of the free intervals.
  pub generate_slots-fit :
      0 < slot
      → (free : List Interval)
      → All (λ s. Some (Fits s) free) (generate_slots zones free duration slot)
  unfolding generate_slots
  generate_slots-fit pos [] = tt
  generate_slots-fit pos (f ∷ free) =
      All-append _ (slots_of zones f duration slot) (generate_slots zones free duration slot)
        (All-imp (λ s h. inl h) _ (slots_of-fit pos f))
        (All-imp (λ s h. inr h) _ (generate_slots-fit pos free))

  -- In zones that keep their distance to the universal time, and for a positive grid step, every
  -- candidate of the grid that fits one of the free intervals is offered.
  pub generate_slots_complete :
      0 < slot
      → (free : List Interval) (f : Interval) (j : ℕ) → Some (λ g. g ≡ f) free
      → zones.wall (zones.zone_of f.0) f.0 ≤ candidate f j
      → candidate f j + duration * 60 ≤ zones.wall (zones.zone_of f.0) f.1
      → Some
          (StartsAt (zones.utc (zones.zone_of f.0) (candidate f j)))
          (generate_slots zones free duration slot)
  unfolding generate_slots
  generate_slots_complete pos [] f j m from fits = absurd m
  generate_slots_complete pos (g ∷ free) f j (inl e) from fits =
      Some-append_left _ (slots_of zones g duration slot) _ (
        subst
          (λ x.
            Some (StartsAt (zones.utc (zones.zone_of f.0) (candidate f j)))
              (slots_of zones x duration slot))
          (sym e) (slots_of_complete pos f j from fits))
  generate_slots_complete pos (g ∷ free) f j (inr m) from fits =
      Some-append_right _ (slots_of zones g duration slot) _
        (generate_slots_complete pos free f j m from fits)
