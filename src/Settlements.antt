-- ===== src/Settlements.antt =====
-- `create_adjustment` and `create_settlement` of services/commissions.py, and what
-- `get_settlement_detail` lists, over the tables of models/commission.py and those of the orders.
-- Amounts are whole cents, which `quantize` does not change.
pub mod Records
pub mod Claims
pub mod Reconciled
pub mod Sequences
use nexasalon_api.Prelude.{
  ℕ, suc, ◌+◌, Bool, true, false, not, ◌&&◌, Option, none, some, List, [], ◌∷◌, ◌++◌, map, filter,
  find, any, sum_of, leb, ◌==◌, if◌then◌else◌, Tx, ok, not_found, conflict, validation, pure, gets,
  modify, raise_if, or_raise, ◌>>=◌, ◌>>◌,
}
use nexasalon_api.Payments.Cents.{ℤ, pos, negsuc, ◌⊖◌}
use nexasalon_api.Payments.Commissions.{
  CommissionStatus, CommissionResolution, calculated, not_configured,
}
use nexasalon_api.Scheduling.Records.{Professional}
use nexasalon_api.Orders.Records as Orders
use nexasalon_api.Orders.Records.{
  Order, OrderItem, AuditEntity, commission_adjustment, commission_settlement, create,
}
use nexasalon_api.Orders.Store.{is_closed}
use nexasalon_api.Orders.Lifecycle.{is_settled}
use nexasalon_api.Settlements.Records.{
  CommissionAdjustment, CommissionSettlement, Db, AdjustmentCreate, SettlementCreate,
}

infixl 60 ◌+ℤ◌
abbrev pub ◌+ℤ◌ : ℤ → ℤ → ℤ
pos a +ℤ pos b = pos (a + b)
pos a +ℤ negsuc b = a ⊖ suc b
negsuc a +ℤ pos b = b ⊖ suc a
negsuc a +ℤ negsuc b = negsuc (suc (a + b))

abbrev pub total : List ℤ → ℤ
total [] = pos 0
total (z ∷ zs) = z +ℤ total zs

abbrev pub is_zero : ℤ → Bool
is_zero (pos n) = n == 0
is_zero (negsuc n) = false

abbrev pub get_professional : ℕ → Db → Option Professional
get_professional id s = find (λ p. p.id == id) s.professionals

abbrev pub log : ℕ → AuditEntity → ℕ → Tx Db (Unit {0})
log actor entity id = modify (λ s. record s {
  orders = record s.orders {
    audit_logs =
        record { entity_type = entity; entity_id = id; action = create; user_id = actor }
        ∷ s.orders.audit_logs;
  };
})

abbrev pub find_item : ℕ → List Order → Option OrderItem
find_item id [] = none
find_item id (o ∷ os) = elim (find (λ i. i.id == id) o.items) [
  | none ↦ find_item id os
  | some i ↦ some i
]

-- The item that an adjustment is about is one of its professional.
abbrev pub assert_item_of : Option ℕ → ℕ → Tx Db (Unit {0})
assert_item_of none professional_id = pure tt
assert_item_of (some id) professional_id = do
  found ← gets (λ s. find_item id s.orders.orders)
  item ← or_raise found not_found
  raise_if (not (item.professional_id == professional_id)) validation

abbrev pub put_adjustment : ℕ → AdjustmentCreate → Db → Db
put_adjustment actor body s = record s {
  adjustments =
      record {
        id = s.orders.next_id;
        professional_id = body.professional_id;
        order_item_id = body.order_item_id;
        commission_settlement_id = none;
        amount = body.amount;
        created_by = actor;
      }
      ∷ s.adjustments;
  orders = record s.orders { next_id = suc s.orders.next_id };
}

unfoldable pub create_adjustment : ℕ → AdjustmentCreate → Tx Db ℕ
create_adjustment actor body = do
  raise_if (is_zero body.amount) validation
  raise_if body.reason_is_blank validation
  found ← gets (get_professional body.professional_id)
  professional ← or_raise found not_found
  assert_item_of body.order_item_id body.professional_id
  id ← gets (λ s. s.orders.next_id)
  modify (put_adjustment actor body)
  log actor commission_adjustment id
  pure id

-- What `lock_pending_commission_items` asks of the order of an item, and of the item.
abbrev pub closed_between : ℕ → ℕ → Option ℕ → Bool
closed_between date_from date_to none = false
closed_between date_from date_to (some at) = leb date_from at && leb at date_to

abbrev pub in_period : ℕ → ℕ → Order → Bool
in_period date_from date_to o = is_closed o && closed_between date_from date_to o.closed_at

abbrev pub is_calculated : Option CommissionResolution → Bool
is_calculated none = false
is_calculated (some c) = elim c.commission_status [ calculated ↦ true | not_configured ↦ false ]

abbrev pub is_pending : ℕ → OrderItem → Bool
is_pending professional_id i =
    i.professional_id == professional_id && (is_calculated i.commission && not (is_settled i))

-- The items that pass the test `q` of the orders that pass the test `p`.
abbrev pub select_items : (Order → Bool) → (OrderItem → Bool) → List Order → List OrderItem
select_items p q [] = []
select_items p q (o ∷ os) =
    if p o then filter q o.items ++ select_items p q os else select_items p q os

unfoldable pub lock_pending_commission_items : ℕ → ℕ → ℕ → Db → List OrderItem
lock_pending_commission_items professional_id date_from date_to s =
    select_items (in_period date_from date_to) (is_pending professional_id) s.orders.orders

abbrev pub contains : ℕ → List ℕ → Bool
contains n ns = any (λ m. m == n) ns

abbrev pub is_chosen : ℕ → List ℕ → CommissionAdjustment → Bool
is_chosen professional_id ids a = a.professional_id == professional_id && contains a.id ids

-- `commission_adjustment_repo.lock_by_ids`; no ids, no rows.
abbrev pub lock_by_ids : ℕ → List ℕ → Db → List CommissionAdjustment
lock_by_ids professional_id ids s = filter (is_chosen professional_id ids) s.adjustments

abbrev pub is_taken : CommissionAdjustment → Bool
is_taken a = elim a.commission_settlement_id [ none ↦ false | some id ↦ true ]

-- `set(adjustment_ids) - {row.id for row in adjustments}` is not empty.
abbrev pub is_missing : List ℕ → List CommissionAdjustment → Bool
is_missing ids rows = any (λ id. not (any (λ a. a.id == id) rows)) ids

abbrev pub commission_of : Option CommissionResolution → ℕ
commission_of none = 0
commission_of (some c) = elim c.commission_amount_snapshot [ none ↦ 0 | some n ↦ n ]

abbrev pub production_sum : List OrderItem → ℕ
production_sum items = sum_of (λ i. i.price) items

abbrev pub commission_sum : List OrderItem → List CommissionAdjustment → ℤ
commission_sum items rows =
    pos (sum_of (λ i. commission_of i.commission) items) +ℤ total (map (λ a. a.amount) rows)

-- `item.commission_settlement_id = settlement.id` for the items that were found, and the same for
-- the adjustments.
abbrev pub claim : {A : Type 0} → (A → Bool) → (A → A) → List A → List A
claim q f [] = []
claim q f (x ∷ xs) = (if q x then f x else x) ∷ claim q f xs

abbrev pub link_item : ℕ → OrderItem → OrderItem
link_item id i = record i { commission_settlement_id = some id }

abbrev pub link_adjustment : ℕ → CommissionAdjustment → CommissionAdjustment
link_adjustment id a = record a { commission_settlement_id = some id }

abbrev pub claim_items : (Order → Bool) → (OrderItem → Bool) → ℕ → List Order → List Order
claim_items p q id [] = []
claim_items p q id (o ∷ os) =
    (if p o then record o { items = claim q (link_item id) o.items } else o) ∷ claim_items p q id os

abbrev pub new_settlement :
    ℕ → ℕ → ℕ → SettlementCreate → List OrderItem → List CommissionAdjustment → CommissionSettlement
new_settlement id now actor body items rows = record {
  id = id;
  professional_id = body.professional_id;
  period_start = body.date_from;
  period_end = body.date_to;
  production_total = production_sum items;
  commission_total = commission_sum items rows;
  created_by = actor;
  paid_at = now;
}

abbrev pub put_settlement :
    ℕ → ℕ → SettlementCreate → List OrderItem → List CommissionAdjustment → Db → Db
put_settlement now actor body items rows s = record s {
  settlements = new_settlement s.orders.next_id now actor body items rows ∷ s.settlements;
  orders = record s.orders {
    orders =
        claim_items (in_period body.date_from body.date_to) (is_pending body.professional_id)
          s.orders.next_id s.orders.orders;
    next_id = suc s.orders.next_id;
  };
  adjustments =
      claim (is_chosen body.professional_id body.adjustment_ids) (link_adjustment s.orders.next_id)
        s.adjustments;
}

abbrev pub is_empty : {A : Type 0} → List A → Bool
is_empty [] = true
is_empty (x ∷ xs) = false

unfoldable pub create_settlement : ℕ → ℕ → SettlementCreate → Tx Db ℕ
unfolding lock_pending_commission_items
create_settlement now actor body = do
  found ← gets (get_professional body.professional_id)
  professional ← or_raise found not_found
  items ← gets (lock_pending_commission_items body.professional_id body.date_from body.date_to)
  raise_if (is_empty items) validation
  rows ← gets (lock_by_ids body.professional_id body.adjustment_ids)
  raise_if (is_missing body.adjustment_ids rows) not_found
  raise_if (any is_taken rows) conflict
  id ← gets (λ s. s.orders.next_id)
  modify (put_settlement now actor body items rows)
  log actor commission_settlement id
  pure id

-- What `get_settlement_detail` lists.
abbrev pub is_of : ℕ → Option ℕ → Bool
is_of id none = false
is_of id (some settlement_id) = settlement_id == id

abbrev pub items_for : ℕ → List Order → List OrderItem
items_for id [] = []
items_for id (o ∷ os) = filter (λ i. is_of id i.commission_settlement_id) o.items ++ items_for id os

abbrev pub list_for_settlement : ℕ → List CommissionAdjustment → List CommissionAdjustment
list_for_settlement id rows = filter (λ a. is_of id a.commission_settlement_id) rows
