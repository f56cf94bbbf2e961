-- ===== src/Scheduling/Slots.antt =====
-- `_generate_slots` of services/availability.py. An instant is in seconds, and so is a wall-clock time,
-- counted from a midnight before all of them. Python adds to a datetime on the clock of its zone,
-- compares two of one zone on that clock, and two of different zones as instants. The quotient of
-- `offset_minutes` by `slot_minutes` is taken in seconds, where Python divides a float; the two
-- agree on whole seconds.
pub mod Grid
use nexasalon_api.Prelude.{
  ℕ, zero, suc, ◌+◌, ◌-◌, ◌*◌, ◌/◌, ◌%◌, Bool, List, [], ◌∷◌, ◌++◌, leb, ◌==◌, if◌then◌else◌, true,
  false,
}
use nexasalon_api.Scheduling.Windows.{Interval}

-- The clocks of the zones (`zoneinfo`): the wall-clock time of an instant, and the instant of a
-- wall-clock time. `zone_of` is the zone of the object that an instant came with: that of the branch
-- for the end of a window, that of the database's driver for the end of a busy interval.
pub record Zones : Type 0 where
  pub wall : ℕ → ℕ → ℕ
  pub utc : ℕ → ℕ → ℕ
  pub zone_of : ℕ → ℕ

-- The slots are instants, as they are compared and sent.
pub record AvailabilitySlot : Type 0 where
  pub start_at : ℕ
  pub end_at : ℕ

-- `-(-offset // slot) * slot`: up to the next multiple.
unfoldable pub ceil_to : ℕ → ℕ → ℕ
ceil_to offset slot = (offset + slot - 1) / slot * slot

-- `replace(hour=0, minute=0, second=0, microsecond=0)` on a wall-clock time
abbrev pub midnight : ℕ → ℕ
midnight wall = wall - wall % 86400

module _ (zones : Zones) where
  -- `candidate + duration <= free_end`, for a candidate of the zone.
  abbrev pub ends_by : ℕ → ℕ → ℕ → Bool
  ends_by zone candidate_end free_end =
      if zone == zones.zone_of free_end
      then leb candidate_end (zones.wall zone free_end)
      else leb (zones.utc zone candidate_end) free_end

  -- The `while` loop, with fuel.
  slots_from : ℕ → ℕ → ℕ → ℕ → ℕ → ℕ → List AvailabilitySlot
  slots_from zone zero candidate free_end duration step = []
  slots_from zone (suc fuel) candidate free_end duration step =
      let rest = slots_from zone fuel (candidate + step) free_end duration step in
      if ends_by zone (candidate + duration) free_end
      then record {
        start_at = zones.utc zone candidate;
        end_at = zones.utc zone (candidate + duration);
      }
        ∷ rest
      else []

  -- The first candidate of a free interval that starts at that wall-clock time: on the grid of the
  -- day.
  unfoldable pub first_candidate : ℕ → ℕ → ℕ
  unfolding ceil_to
  first_candidate free_start slot_minutes =
      let day_start = midnight free_start in
      day_start + ceil_to (free_start - day_start) (slot_minutes * 60)

  -- No zone is a day or more away from another, so that the fuel is enough in any.
  unfoldable pub slots_of : Interval → ℕ → ℕ → List AvailabilitySlot
  unfolding slots_from first_candidate
  slots_of free duration_minutes slot_minutes =
      let zone = zones.zone_of free.0 in
      slots_from zone (suc (zones.wall zone free.1 + 86400))
        (first_candidate (zones.wall zone free.0) slot_minutes) free.1 (duration_minutes * 60)
        (slot_minutes * 60)

  unfoldable pub generate_slots : List Interval → ℕ → ℕ → List AvailabilitySlot
  unfolding slots_of
  generate_slots [] duration_minutes slot_minutes = []
  generate_slots (free ∷ free_intervals) duration_minutes slot_minutes =
      slots_of free duration_minutes slot_minutes
      ++ generate_slots free_intervals duration_minutes slot_minutes
