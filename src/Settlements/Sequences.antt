-- ===== src/Settlements/Sequences.antt =====
-- Sequences of new adjustments and settlements of services/commissions.py.
use nexasalon_api.Prelude.{
  map, ap, ◌∙◌, ℕ, suc, ◌<◌, ◌≡◌, refl, subst, not, Option, none, some, List, [], ◌∷◌, All-imp,
  ◌==◌, Result, IsCheck, pure-IsCheck, raise_if-IsCheck, check-then, ok, err, not_found, validation,
  ok-injective, or_raise-then, raise_if-then, arith,
}
use nexasalon_api.Settlements.Records.{CommissionSettlement, AdjustmentCreate, SettlementCreate, Db}
use nexasalon_api.Settlements.{
  items_for, list_for_settlement, lock_pending_commission_items, lock_by_ids, is_zero, find_item,
  assert_item_of, create_adjustment, get_professional, create_settlement,
}
use nexasalon_api.Settlements.Reconciled.{
  IsReconciled, create_settlement-IsReconciled, create_settlement-others, create_settlement-lists,
  create_settlement-repeated,
}

assert_item_of-IsCheck :
    (item : Option ℕ) (professional_id : ℕ) → IsCheck (assert_item_of item professional_id)
assert_item_of-IsCheck none professional_id s r h = pure-IsCheck tt s r h
assert_item_of-IsCheck (some id) professional_id s r h =
    let (item, _, h1) = or_raise-then (find_item id s.orders.orders) not_found _ s h in
    raise_if-IsCheck (not (item.professional_id == professional_id)) validation s r h1

-- An adjustment belongs to no settlement at first.
create_adjustment-IsReconciled :
    (actor : ℕ) (body : AdjustmentCreate) (s : Db) (r : ℕ × Db)
    → IsReconciled s
    → create_adjustment actor body s ≡ ok r
    → IsReconciled r.1
unfolding create_adjustment
create_adjustment-IsReconciled actor body s r (adds, no_items, no_rows) h =
    let (_, h1) = raise_if-then (is_zero body.amount) validation _ s h in
    let (_, h2) = raise_if-then body.reason_is_blank validation _ s h1 in
    let (_, _, h3) = or_raise-then (get_professional body.professional_id s) not_found _ s h2 in
    let h4 =
      check-then (assert_item_of body.order_item_id body.professional_id) _ s
        (assert_item_of-IsCheck body.order_item_id body.professional_id) h3 in
    subst (λ x. IsReconciled x.1) (ok-injective h4)
      (
        All-imp (λ x a. (above x a.0, a.1)) s.settlements adds,
        (λ id le. no_items id (omega arith)),
        (λ id le. no_rows id (omega arith)),
      )
  where
    above : (x : CommissionSettlement) → x.id < s.orders.next_id → x.id < suc s.orders.next_id
    above x h = omega arith

pub data Call : Type 0 where
  adjusting : ℕ → AdjustmentCreate → Call
  settling : ℕ → ℕ → SettlementCreate → Call

abbrev pub after : Db → Result (ℕ × Db) → Db
after s (ok r) = r.1
after s (err e) = s

-- A call that raises leaves the database as it was.
unfoldable pub state_after : Call → Db → Db
state_after (adjusting actor body) s = after s (create_adjustment actor body s)
state_after (settling now actor body) s = after s (create_settlement now actor body s)

abbrev pub run_calls : List Call → Db → Db
run_calls [] s = s
run_calls (c ∷ cs) s = run_calls cs (state_after c s)

after-IsReconciled :
    (s : Db) (x : Result (ℕ × Db))
    → IsReconciled s
    → ((r : ℕ × Db) → x ≡ ok r → IsReconciled r.1)
    → IsReconciled (after s x)
after-IsReconciled s (ok r) h k = k r refl
after-IsReconciled s (err e) h k = h

state_after-IsReconciled : (c : Call) (s : Db) → IsReconciled s → IsReconciled (state_after c s)
unfolding state_after
state_after-IsReconciled (adjusting actor body) s h =
    after-IsReconciled s (create_adjustment actor body s) h
      (λ r. create_adjustment-IsReconciled actor body s r h)
state_after-IsReconciled (settling now actor body) s h =
    after-IsReconciled s (create_settlement now actor body s) h
      (λ r. create_settlement-IsReconciled now actor body s r h)

-- When the totals of every settlement are the sums over the items and the adjustments that it lists,
-- and no row belongs to an id that was not given out, then the same holds after any sequence of new
-- adjustments and settlements, some of which may be refused.
pub run_calls-IsReconciled :
    (cs : List Call) (s : Db) → IsReconciled s → IsReconciled (run_calls cs s)
run_calls-IsReconciled [] s h = h
run_calls-IsReconciled (c ∷ cs) s h =
    run_calls-IsReconciled cs (state_after c s) (state_after-IsReconciled c s h)

-- What a settlement lists stays when the database goes from one state to the next.
abbrev Keeps : ℕ → Db → Db → Type 0
Keeps id s s' =
    (items_for id s'.orders.orders ≡ items_for id s.orders.orders)
    × (list_for_settlement id s'.adjustments ≡ list_for_settlement id s.adjustments)
    × (id < s'.orders.next_id)

create_adjustment-Keeps :
    (actor : ℕ) (body : AdjustmentCreate) (s : Db) (r : ℕ × Db) (id : ℕ)
    → create_adjustment actor body s ≡ ok r
    → id < s.orders.next_id
    → Keeps id s r.1
unfolding create_adjustment
create_adjustment-Keeps actor body s r id h below =
    let (_, h1) = raise_if-then (is_zero body.amount) validation _ s h in
    let (_, h2) = raise_if-then body.reason_is_blank validation _ s h1 in
    let (_, _, h3) = or_raise-then (get_professional body.professional_id s) not_found _ s h2 in
    let h4 =
      check-then (assert_item_of body.order_item_id body.professional_id) _ s
        (assert_item_of-IsCheck body.order_item_id body.professional_id) h3 in
    subst (λ x. Keeps id s x.1) (ok-injective h4) (refl, refl, omega arith)

after-Keeps :
    (s : Db) (x : Result (ℕ × Db)) (id : ℕ)
    → id < s.orders.next_id
    → ((r : ℕ × Db) → x ≡ ok r → Keeps id s r.1)
    → Keeps id s (after s x)
after-Keeps s (ok r) id below k = k r refl
after-Keeps s (err e) id below k = (refl, refl, below)

state_after-Keeps :
    (c : Call) (s : Db) (id : ℕ) → id < s.orders.next_id → Keeps id s (state_after c s)
unfolding state_after
state_after-Keeps (adjusting actor body) s id below =
    after-Keeps s (create_adjustment actor body s) id below
      (λ r e. create_adjustment-Keeps actor body s r id e below)
state_after-Keeps (settling now actor body) s id below =
    after-Keeps s (create_settlement now actor body s) id below
      (λ r e. create_settlement-others now actor body s r id e below)

run_calls-Keeps :
    (cs : List Call) (s : Db) (id : ℕ) → id < s.orders.next_id → Keeps id s (run_calls cs s)
run_calls-Keeps [] s id below = (refl, refl, below)
run_calls-Keeps (c ∷ cs) s id below =
    let (items, rows, next) = state_after-Keeps c s id below in
    let (items', rows', last) = run_calls-Keeps cs (state_after c s) id next in
    (items' ∙ items, rows' ∙ rows, last)

-- A settlement that was created lists the items that were pending for its professional in its
-- period and the adjustments that were chosen, and it is these that it lists after any sequence of
-- further adjustments and settlements, of whatever professionals and periods: none of them goes
-- over to another settlement. The same professional and period at once again, with whichever
-- adjustments, is refused for want of anything to pay.
pub create_settlement-kept :
    (now actor : ℕ) (body : SettlementCreate) (s : Db) (r : ℕ × Db)
    → IsReconciled s
    → create_settlement now actor body s ≡ ok r
    → ((cs : List Call)
        → (map (λ i. i.id) (items_for r.0 (run_calls cs r.1).orders.orders)
            ≡ map
                (λ i. i.id)
                (lock_pending_commission_items body.professional_id body.date_from body.date_to s))
          × (map (λ a. a.id) (list_for_settlement r.0 (run_calls cs r.1).adjustments)
              ≡ map (λ a. a.id) (lock_by_ids body.professional_id body.adjustment_ids s)))
      × ((later another : ℕ) (adjustment_ids : List ℕ)
          → create_settlement later another (record body { adjustment_ids = adjustment_ids }) r.1
            ≡ err validation)
create_settlement-kept now actor body s r h e =
    let (below, items, rows) = create_settlement-lists now actor body s r h e in
    (
      (λ cs.
          let (items', rows', _) = run_calls-Keeps cs r.1 r.0 below in
          (ap (map (λ i. i.id)) items' ∙ items, ap (map (λ a. a.id)) rows' ∙ rows)),
      (λ later another adjustment_ids.
          create_settlement-repeated now actor body s r later another adjustment_ids e),
    )
