-- ===== src/Booking/Creation/Accepted.antt =====
-- What a request that forces nothing has passed when it is accepted.
use nexasalon_api.Prelude.{
  ℕ, Bool, true, false, not, ◌&&◌, ◌≡◌, refl, sym, ap, subst, ◌∙◌, Option, none, List, [], find,
  any, ◌==◌, Tx, Result, ok, err, not_found, validation, forbidden, conflict, pure, gets, raise_if,
  or_raise, IsCheck, gets-IsCheck, pure-IsCheck, or_raise-IsCheck, raise_if-IsCheck, >>=-IsCheck,
  read-then, check-then, raise_if-then, ok-injective, arith,
}
use nexasalon_api.Access.Records.{agenda_edit, agenda_force_overlap}
use nexasalon_api.Access.Permissions.{contains}
use nexasalon_api.Access.Agenda.{ActorContext, can_edit_professional}
use nexasalon_api.Scheduling.Records.{Branch}
use nexasalon_api.Orders.Records as Orders
use nexasalon_api.Orders.Records.{Clock, CashRegister, EffectiveConfig}
use nexasalon_api.Orders.Registers.{
  Purpose, for_appointment, assert_operational_prerequisites, stale_open_register,
  get_open_for_branch, require_open, is_some,
}
use nexasalon_api.Booking.Records.{AppointmentCreate, ItemSnapshot, Client, Db}
use nexasalon_api.Booking.Snapshots.{resolve_force_overlap, build_all_item_snapshots}
use nexasalon_api.Booking.Snapshots.Reads.{also, build_all_item_snapshots-IsCheck}
use nexasalon_api.Booking.Creation.{
  in_orders, has_conflict, apply_conflict_policy, assert_can_edit, is_archived,
  assert_branch_and_client, write_appointment, create_appointment,
}

in_orders-IsCheck : {A : Type 0} (m : Tx Orders.Db A) → IsCheck m → IsCheck (in_orders m)
in_orders-IsCheck {A} m c s r = result (m s.orders) refl
  where
    result :
        (x : Result (A × Orders.Db))
        → m s.orders ≡ x
        → nexasalon_api.Booking.Creation.with_orders s x ≡ ok r
        → r.1 ≡ s
    result (ok (a, o)) e h =
        sym (ap (λ x. x.1) (ok-injective h))
        ∙ ap (λ x. record s { orders = x }) (c s.orders (a, o) e)
    result (err x) e h = cc

prerequisites-IsCheck :
    (clock : Clock) (branch_id : ℕ) (purpose : Purpose)
    → IsCheck (assert_operational_prerequisites clock branch_id purpose)
unfolding assert_operational_prerequisites
prerequisites-IsCheck clock branch_id purpose =
    >>=-IsCheck (gets (λ (s : Orders.Db). s.config)) _ (gets-IsCheck _)
      (λ (config : EffectiveConfig).
        >>=-IsCheck (gets (λ (s : Orders.Db). stale_open_register clock branch_id s.registers)) _
          (gets-IsCheck _)
          (λ (stale : Option CashRegister).
            >>=-IsCheck (raise_if (config.block_if_previous_day_open && is_some stale) conflict) _
              (raise_if-IsCheck _ conflict)
              (λ _.
                >>=-IsCheck (gets (λ (s : Orders.Db). get_open_for_branch branch_id s.registers)) _
                  (gets-IsCheck _)
                  (λ (current : Option CashRegister).
                    raise_if-IsCheck (require_open config purpose && not (is_some current))
                      validation))))

assert_branch_and_client-IsCheck :
    (branch_id client_id : ℕ) → IsCheck (assert_branch_and_client branch_id client_id)
unfolding assert_branch_and_client
assert_branch_and_client-IsCheck branch_id client_id =
    >>=-IsCheck (gets (λ (s : Db). find (λ b. b.id == branch_id) s.schedule.branches)) _
      (gets-IsCheck _)
      (λ (branch : Option Branch).
        >>=-IsCheck (or_raise branch not_found) _ (or_raise-IsCheck branch not_found) (λ _.
          >>=-IsCheck (gets (λ (s : Db). find (λ c. c.id == client_id) s.clients)) _
            (gets-IsCheck _)
            (λ (found : Option Client).
              >>=-IsCheck (or_raise found not_found) _ (or_raise-IsCheck found not_found)
                (λ (client : Client). raise_if-IsCheck (is_archived client) validation))))

resolve-IsCheck : (ps : List ℕ) (b : Bool) → IsCheck (resolve_force_overlap ps b)
unfolding resolve_force_overlap
resolve-IsCheck ps false = pure-IsCheck false
resolve-IsCheck ps true =
    also _ _
      (raise_if-IsCheck (not (contains agenda_force_overlap ps) && not (contains agenda_edit ps))
        forbidden)
      (pure-IsCheck true)

unforced :
    (ps : List ℕ) (b a : Bool) (s : Db)
    → b ≡ false
    → resolve_force_overlap ps b s ≡ ok (a, s)
    → a ≡ false
unfolding resolve_force_overlap
unforced ps true a s h e = cc
unforced ps false a s h e = sym (ap (λ x. x.0) (ok-injective e))

no_conflict : (b a : Bool) → a ≡ false → (b && not a) ≡ false → b ≡ false
no_conflict b a h k = ground arith

module _ (combine : ℕ → ℕ → ℕ → ℕ) (local_date : ℕ → ℕ → ℕ) where
  -- The snapshots of the items have no conflict, and are written as they are.
  pub create_appointment-then :
      (clock : Clock) (actor : ActorContext) (body : AppointmentCreate) (s : Db) {r : ℕ × Db}
      → body.force_overlap ≡ false
      → create_appointment combine local_date clock actor body s ≡ ok r
      → (snapshots : List ItemSnapshot) × (build_all_item_snapshots combine local_date
            body.branch_id none false [] body.items s
          ≡ ok (snapshots, s))
        × (any has_conflict snapshots ≡ false)
        × (write_appointment actor body false snapshots s ≡ ok r)
  unfolding create_appointment apply_conflict_policy assert_can_edit can_edit_professional
  create_appointment-then clock actor body s {r} h e =
      let (forced, e1, k1) =
        read-then (resolve_force_overlap actor.permissions body.force_overlap) _ s
          (resolve-IsCheck actor.permissions body.force_overlap) e in
      let off = unforced actor.permissions body.force_overlap forced s h e1 in
      let k2 =
        check-then (assert_branch_and_client body.branch_id body.client_id) _ s
          (assert_branch_and_client-IsCheck body.branch_id body.client_id) k1 in
      let k3 =
        check-then
          (in_orders (assert_operational_prerequisites clock body.branch_id for_appointment)) _ s
          (in_orders-IsCheck _ (prerequisites-IsCheck clock body.branch_id for_appointment)) k2 in
      let (snapshots, built, k4) =
        read-then
          (build_all_item_snapshots combine local_date body.branch_id none forced [] body.items) _ s
          (build_all_item_snapshots-IsCheck combine local_date body.branch_id none forced []
            body.items)
          k3 in
      let k5 =
        check-then (assert_can_edit actor snapshots) _ s
          (raise_if-IsCheck
            (any (λ x. not (can_edit_professional actor x.professional_id)) snapshots) forbidden)
          k4 in
      let (any_forced, e6, k6) =
        read-then (apply_conflict_policy forced snapshots) _ s
          (also _ _ (raise_if-IsCheck (any has_conflict snapshots && not forced) conflict)
            (pure-IsCheck (any has_conflict snapshots)))
          k5 in
      let (clear, e7) =
        raise_if-then (any has_conflict snapshots && not forced) conflict
          (pure (any has_conflict snapshots)) s e6 in
      let none_there = no_conflict (any has_conflict snapshots) forced off clear in
      (
        snapshots,
        subst
            (λ b.
              build_all_item_snapshots combine local_date body.branch_id none b [] body.items s
              ≡ ok (snapshots, s))
            off built,
        none_there,
        subst (λ b. write_appointment actor body b snapshots s ≡ ok r)
            (sym (ap (λ x. x.0) (ok-injective e7)) ∙ none_there) k6,
      )
