-- ===== src/Booking/Snapshots/Reads.antt =====
-- What the validation of a request in services/appointments.py leaves of the state.
use nexasalon_api.Prelude.{
  ℕ, ◌+◌, ◌*◌, Bool, not, ◌&&◌, Option, List, [], ◌∷◌, ◌++◌, find, ◌==◌, Tx, not_found, validation,
  gets, raise_if, ◌>>◌, IsCheck, gets-IsCheck, pure-IsCheck, or_raise-IsCheck, raise_if-IsCheck,
  >>=-IsCheck,
}
use nexasalon_api.Scheduling.Availability.{effective_duration_and_price}
use nexasalon_api.Scheduling.Records.{Professional, Service, ProfessionalService}
use nexasalon_api.Booking.Records.{AppointmentItemCreate, Reason, ItemSnapshot, Db}
use nexasalon_api.Booking.Snapshots.{
  checked_item, build_item_snapshot, build_all_item_snapshots, rejection, snapshot, is_some,
  serves_elsewhere, performs, override_or,
}

-- Two steps of a validation, of which the first gives nothing.
pub also :
    {B : Type 0} (m : Tx Db (Unit {0})) (k : Tx Db B) → IsCheck m → IsCheck k → IsCheck (m >> k)
also m k c d = >>=-IsCheck m (λ _. k) c (λ _. d)

module _ (combine : ℕ → ℕ → ℕ → ℕ) (local_date : ℕ → ℕ → ℕ) where
  pub checked_item-IsCheck :
      (branch_id : ℕ) (item : AppointmentItemCreate)
      → IsCheck (checked_item combine local_date branch_id item)
  unfolding checked_item
  checked_item-IsCheck branch_id item =
      >>=-IsCheck _ _
        (gets-IsCheck
          (λ (db : Db). find (λ p. p.id == item.professional_id) db.schedule.professionals))
        (λ (found : Option Professional).
          >>=-IsCheck _ _ (or_raise-IsCheck found not_found) (λ (p : Professional).
            also _ _ (raise_if-IsCheck (not p.is_active) validation) (
              also _ _ (raise_if-IsCheck (serves_elsewhere p.branch_id branch_id) validation) (
                >>=-IsCheck _ _
                  (gets-IsCheck
                    (λ (db : Db). find (λ s. s.id == item.service_id) db.schedule.services))
                  (λ (found_service : Option Service).
                    >>=-IsCheck _ _ (or_raise-IsCheck found_service not_found)
                      (λ (service : Service).
                        also _ _ (raise_if-IsCheck (not service.is_active) validation) (
                          >>=-IsCheck _ _
                            (gets-IsCheck (λ (db : Db).
                              find
                                (λ l.
                                  l.professional_id == item.professional_id
                                  && l.service_id == item.service_id)
                                db.schedule.professional_services))
                            (λ (link : Option ProfessionalService).
                              also _ _ (raise_if-IsCheck (not (performs link)) validation) (
                                pure-IsCheck (
                                  override_or item.duration_override
                                      (effective_duration_and_price service link).0,
                                  override_or item.price_override
                                      (effective_duration_and_price service link).1,
                                ))))))))))

  pub build_item_snapshot-IsCheck :
      (branch_id : ℕ) (exclude : Option ℕ) (force_overlap : Bool) (siblings : List ItemSnapshot)
      (item : AppointmentItemCreate)
      → IsCheck
          (build_item_snapshot combine local_date branch_id exclude force_overlap siblings item)
  unfolding build_item_snapshot
  build_item_snapshot-IsCheck branch_id exclude force_overlap siblings item =
      >>=-IsCheck (checked_item combine local_date branch_id item) _
        (checked_item-IsCheck branch_id item)
        (λ (checked : ℕ × ℕ).
          >>=-IsCheck
            (gets (λ (db : Db).
              rejection combine local_date db branch_id item.professional_id item.start_at
                (item.start_at + 60 * checked.0)))
            _ (gets-IsCheck _)
            (λ (rejected : Option Reason).
              also (raise_if (is_some rejected && not force_overlap) validation)
                (gets (λ (db : Db).
                  snapshot combine local_date db exclude siblings rejected item checked))
                (raise_if-IsCheck (is_some rejected && not force_overlap) validation)
                (gets-IsCheck (λ (db : Db).
                  snapshot combine local_date db exclude siblings rejected item checked))))

  pub build_all_item_snapshots-IsCheck :
      (branch_id : ℕ) (exclude : Option ℕ) (force_overlap : Bool) (siblings : List ItemSnapshot)
      (items : List AppointmentItemCreate)
      → IsCheck (
          build_all_item_snapshots combine local_date branch_id exclude force_overlap siblings
            items)
  unfolding build_all_item_snapshots
  build_all_item_snapshots-IsCheck branch_id exclude force_overlap siblings [] =
      pure-IsCheck siblings
  build_all_item_snapshots-IsCheck branch_id exclude force_overlap siblings (item ∷ items) =
      >>=-IsCheck
        (build_item_snapshot combine local_date branch_id exclude force_overlap siblings item) _
        (build_item_snapshot-IsCheck branch_id exclude force_overlap siblings item)
        (λ s.
          build_all_item_snapshots-IsCheck branch_id exclude force_overlap (siblings ++ s ∷ [])
            items)
