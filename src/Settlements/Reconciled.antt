-- ===== src/Settlements/Reconciled.antt =====
-- The rows before and after `create_settlement` of services/commissions.py.
use nexasalon_api.Prelude.{
  ℕ, suc, ◌+◌, ◌≤◌, ◌<◌, ◌≡◌, refl, sym, ap, ◌∙◌, subst, Bool, true, false, not, ◌&&◌, some, List,
  [], ◌∷◌, map, any, sum_of, All, All-imp, ◌==◌, ok, err, not_found, conflict, validation,
  ok-injective, or_raise-then, or_raise-run, raise_if-then, ==_refl, arith,
}
use nexasalon_api.Payments.Cents.{pos}
use nexasalon_api.Orders.Records.{OrderItem, AuditLog}
use nexasalon_api.Scheduling.Records.{Professional}
use nexasalon_api.Orders.Lifecycle.{is_settled}
use nexasalon_api.Settlements.Records.{CommissionSettlement, SettlementCreate, Db}
use nexasalon_api.Settlements.{
  ◌+ℤ◌, total, get_professional, in_period, is_pending, is_calculated, select_items,
  lock_pending_commission_items, is_chosen, lock_by_ids, is_taken, is_missing, commission_of,
  production_sum, commission_sum, link_item, link_adjustment, new_settlement, put_settlement,
  is_empty, create_settlement, is_of, items_for, list_for_settlement,
}
use nexasalon_api.Settlements.Claims.{
  unlinked, filter-claim_new, filter-claim_other, items_for-claim_new, items_for-claim_other,
  select_items-claim_again,
}

-- A settlement whose totals are those of the items and the adjustments that it lists.
abbrev pub Adds : Db → CommissionSettlement → Type 0
Adds s x =
    (x.production_total ≡ production_sum (items_for x.id s.orders.orders))
    × (x.commission_total
        ≡ commission_sum (items_for x.id s.orders.orders) (list_for_settlement x.id s.adjustments))

-- Every settlement adds up, and no row belongs to a settlement whose id was not given out.
abbrev pub IsReconciled : Db → Type 0
IsReconciled s =
    All (λ x. (x.id < s.orders.next_id) × Adds s x) s.settlements
    × ((id : ℕ) → s.orders.next_id ≤ id → items_for id s.orders.orders ≡ [])
    × ((id : ℕ) → s.orders.next_id ≤ id → list_for_settlement id s.adjustments ≡ [])

sum_of-map : {A : Type 0} (f : A → ℕ) (xs : List A) → sum_of f xs ≡ sum_of (λ n. n) (map f xs)
sum_of-map f [] = refl
sum_of-map f (x ∷ xs) = ap (λ n. f x + n) (sum_of-map f xs)

pending_unsettled : (a b c : Bool) → (a && (b && not c)) ≡ true → c ≡ false
pending_unsettled a b c h = ground arith

settled_not_pending : (a b : Bool) → (a && (b && not true)) ≡ false
settled_not_pending a b = ground arith

differs : (a b : ℕ) → a < b → (b == a) ≡ false
differs a b h = ground arith

differs_above : (a b : ℕ) → suc a ≤ b → (a == b) ≡ false
differs_above a b h = ground arith

-- The rows after a settlement, but for the audit log.
abbrev paid : ℕ → ℕ → SettlementCreate → Db → Db
paid now actor body s =
    put_settlement now actor body
      (lock_pending_commission_items body.professional_id body.date_from body.date_to s)
      (lock_by_ids body.professional_id body.adjustment_ids s) s

abbrev with_logs : Db → List AuditLog → Db
with_logs s logs = record s { orders = record s.orders { audit_logs = logs } }

create_settlement-then :
    (now actor : ℕ) (body : SettlementCreate) (s : Db) (r : ℕ × Db)
    → create_settlement now actor body s ≡ ok r
    → (p : Professional) × (get_professional body.professional_id s ≡ some p)
      × (any is_taken (lock_by_ids body.professional_id body.adjustment_ids s) ≡ false)
      × (logs : List AuditLog) × ((s.orders.next_id, with_logs (paid now actor body s) logs) ≡ r)
unfolding create_settlement
create_settlement-then now actor body s r h =
    let items = lock_pending_commission_items body.professional_id body.date_from body.date_to s in
    let rows = lock_by_ids body.professional_id body.adjustment_ids s in
    let (p, known, h1) = or_raise-then (get_professional body.professional_id s) not_found _ s h in
    let (_, h2) = raise_if-then (is_empty items) validation _ s h1 in
    let (_, h3) = raise_if-then (is_missing body.adjustment_ids rows) not_found _ s h2 in
    let (free, h4) = raise_if-then (any is_taken rows) conflict _ s h3 in
    (p, known, free, _, ok-injective h4)

module _ (now actor : ℕ) (body : SettlementCreate) (s : Db)
    (free : any is_taken (lock_by_ids body.professional_id body.adjustment_ids s) ≡ false) where
  items_other :
      (m : ℕ)
      → (s.orders.next_id == m) ≡ false
      → items_for m (paid now actor body s).orders.orders ≡ items_for m s.orders.orders
  items_other m d =
      items_for-claim_other (in_period body.date_from body.date_to)
        (is_pending body.professional_id) s.orders.next_id m s.orders.orders d
        (λ i.
          pending_unsettled (i.professional_id == body.professional_id) (is_calculated i.commission)
            (is_settled i))

  adjustments_other :
      (m : ℕ)
      → (s.orders.next_id == m) ≡ false
      → list_for_settlement m (paid now actor body s).adjustments
        ≡ list_for_settlement m s.adjustments
  adjustments_other m d =
      filter-claim_other (is_chosen body.professional_id body.adjustment_ids)
        (link_adjustment s.orders.next_id) (λ a. is_of m a.commission_settlement_id) is_taken
        s.adjustments (λ a. d) (λ a. unlinked m a.commission_settlement_id) free

  -- The settlements from before list what they listed.
  Adds-before :
      (x : CommissionSettlement)
      → (x.id < s.orders.next_id) × Adds s x
      → (x.id < suc s.orders.next_id) × Adds (paid now actor body s) x
  Adds-before x (below, (production, commission)) =
      let d = differs x.id s.orders.next_id below in
      (
        omega arith,
        (
          production ∙ ap production_sum (sym (items_other x.id d)),
          commission
              ∙ ap (λ is. commission_sum is (list_for_settlement x.id s.adjustments))
                  (sym (items_other x.id d))
              ∙ ap (commission_sum (items_for x.id (paid now actor body s).orders.orders))
                  (sym (adjustments_other x.id d)),
        ),
      )

  -- The new one lists what was pending.
  sum_new :
      (g : OrderItem → ℕ)
      → ((i : OrderItem) → g (link_item s.orders.next_id i) ≡ g i)
      → items_for s.orders.next_id s.orders.orders ≡ []
      → sum_of g (lock_pending_commission_items body.professional_id body.date_from body.date_to s)
        ≡ sum_of g (items_for s.orders.next_id (paid now actor body s).orders.orders)
  unfolding lock_pending_commission_items
  sum_new g k h =
      let p = in_period body.date_from body.date_to in
      let q = is_pending body.professional_id in
      sum_of-map g (select_items p q s.orders.orders)
      ∙ ap (λ ns. sum_of (λ n. n) ns)
          (sym (items_for-claim_new p q s.orders.next_id g s.orders.orders k h))
      ∙ sym (sum_of-map g (items_for s.orders.next_id (paid now actor body s).orders.orders))

  Adds-new :
      IsReconciled s
      → Adds (paid now actor body s) (
          new_settlement s.orders.next_id now actor body
            (lock_pending_commission_items body.professional_id body.date_from body.date_to s)
            (lock_by_ids body.professional_id body.adjustment_ids s))
  Adds-new (_, no_items, no_rows) =
      let none_yet = no_items s.orders.next_id (omega arith) in
      (
        sum_new (λ i. i.price) (λ i. refl) none_yet,
        ap
              (λ n.
                pos n
                +ℤ total
                    (map (λ a. a.amount) (lock_by_ids body.professional_id body.adjustment_ids s)))
              (sum_new (λ i. commission_of i.commission) (λ i. refl) none_yet)
            ∙ ap
                (λ zs.
                  pos (
                    sum_of (λ i. commission_of i.commission)
                      (items_for s.orders.next_id (paid now actor body s).orders.orders))
                  +ℤ total zs)
                (sym (
                  filter-claim_new (is_chosen body.professional_id body.adjustment_ids)
                    (link_adjustment s.orders.next_id)
                    (λ a. is_of s.orders.next_id a.commission_settlement_id) (λ a. a.amount)
                    s.adjustments (λ a. ==_refl s.orders.next_id) (λ a. refl)
                    (no_rows s.orders.next_id (omega arith)))),
      )

  paid-IsReconciled : IsReconciled s → IsReconciled (paid now actor body s)
  paid-IsReconciled h = (
    ((omega arith, Adds-new h), All-imp Adds-before s.settlements h.0),
    (λ id le. items_other id (differs_above s.orders.next_id id le) ∙ h.1 id (omega arith)),
    (λ id le. adjustments_other id (differs_above s.orders.next_id id le) ∙ h.2 id (omega arith)),
  )

pub create_settlement-IsReconciled :
    (now actor : ℕ) (body : SettlementCreate) (s : Db) (r : ℕ × Db)
    → IsReconciled s
    → create_settlement now actor body s ≡ ok r
    → IsReconciled r.1
create_settlement-IsReconciled now actor body s r h e =
    let (_, _, free, _, same) = create_settlement-then now actor body s r e in
    subst (λ x. IsReconciled x.1) same (paid-IsReconciled now actor body s free h)

-- No row of an earlier settlement goes over to a later one.
pub create_settlement-others :
    (now actor : ℕ) (body : SettlementCreate) (s : Db) (r : ℕ × Db) (id : ℕ)
    → create_settlement now actor body s ≡ ok r
    → id < s.orders.next_id
    → (items_for id r.1.orders.orders ≡ items_for id s.orders.orders)
      × (list_for_settlement id r.1.adjustments ≡ list_for_settlement id s.adjustments)
      × (id < r.1.orders.next_id)
create_settlement-others now actor body s r id e below =
    let (_, _, free, _, same) = create_settlement-then now actor body s r e in
    let d = differs id s.orders.next_id below in
    subst
      (λ x.
        (items_for id x.1.orders.orders ≡ items_for id s.orders.orders)
        × (list_for_settlement id x.1.adjustments ≡ list_for_settlement id s.adjustments)
        × (id < x.1.orders.next_id))
      same
      (
        items_other now actor body s free id d,
        adjustments_other now actor body s free id d,
        omega arith,
      )

-- What a new settlement lists.
pub create_settlement-lists :
    (now actor : ℕ) (body : SettlementCreate) (s : Db) (r : ℕ × Db)
    → IsReconciled s
    → create_settlement now actor body s ≡ ok r
    → (r.0 < r.1.orders.next_id)
      × (map (λ i. i.id) (items_for r.0 r.1.orders.orders)
          ≡ map
              (λ i. i.id)
              (lock_pending_commission_items body.professional_id body.date_from body.date_to s))
      × (map (λ a. a.id) (list_for_settlement r.0 r.1.adjustments)
          ≡ map (λ a. a.id) (lock_by_ids body.professional_id body.adjustment_ids s))
unfolding lock_pending_commission_items
create_settlement-lists now actor body s r (_, no_items, no_rows) e =
    let (_, _, _, _, same) = create_settlement-then now actor body s r e in
    subst
      (λ x.
        (x.0 < x.1.orders.next_id)
        × (map (λ i. i.id) (items_for x.0 x.1.orders.orders)
            ≡ map (λ i. i.id)
                (lock_pending_commission_items body.professional_id body.date_from body.date_to s))
        × (map (λ a. a.id) (list_for_settlement x.0 x.1.adjustments)
            ≡ map (λ a. a.id) (lock_by_ids body.professional_id body.adjustment_ids s)))
      same
      (
        omega arith,
        items_for-claim_new (in_period body.date_from body.date_to)
            (is_pending body.professional_id) s.orders.next_id (λ i. i.id) s.orders.orders
            (λ i. refl) (no_items s.orders.next_id (omega arith)),
        filter-claim_new (is_chosen body.professional_id body.adjustment_ids)
            (link_adjustment s.orders.next_id)
            (λ a. is_of s.orders.next_id a.commission_settlement_id) (λ a. a.id) s.adjustments
            (λ a. ==_refl s.orders.next_id) (λ a. refl) (no_rows s.orders.next_id (omega arith)),
      )

-- The same professional and period once more, at once.
pub create_settlement-repeated :
    (now actor : ℕ) (body : SettlementCreate) (s : Db) (r : ℕ × Db) (later another : ℕ)
    (adjustment_ids : List ℕ)
    → create_settlement now actor body s ≡ ok r
    → create_settlement later another (record body { adjustment_ids = adjustment_ids }) r.1
      ≡ err validation
unfolding create_settlement lock_pending_commission_items
create_settlement-repeated now actor body s r later another adjustment_ids e =
    let (p, known, _, logs, same) = create_settlement-then now actor body s r e in
    let again = record body { adjustment_ids = adjustment_ids } in
    subst (λ x. create_settlement later another again x.1 ≡ err validation) same
      (or_raise-run not_found _ (with_logs (paid now actor body s) logs) known
        ∙ rw
            (select_items-claim_again (in_period body.date_from body.date_to)
              (is_pending body.professional_id) s.orders.next_id s.orders.orders
              (λ i.
                settled_not_pending (i.professional_id == body.professional_id)
                  (is_calculated i.commission))
              (λ o is. refl))
            refl)
