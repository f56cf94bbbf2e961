-- ===== src/Tests/Settlements.antt =====
-- One settled commission with an adjustment, after a first try that finds nothing to pay.
use nexasalon_api.Prelude.{
  ℕ, ◌≡◌, refl, true, false, none, some, List, [], ◌∷◌, Result, ok, err, map,
}
use nexasalon_api.Payments.Cents.{pos, negsuc, ◌⊖◌}
use nexasalon_api.Payments.Commissions.{percentage, calculated}
use nexasalon_api.Orders.Records.{Order}
use nexasalon_api.Orders.Records as Records
use nexasalon_api.Settlements.Records.{SettlementCreate, Db}
use nexasalon_api.Settlements.{
  items_for, lock_pending_commission_items, create_adjustment, create_settlement,
}
use nexasalon_api.Settlements.Reconciled.{IsReconciled}
use nexasalon_api.Settlements.Sequences.{
  Call, adjusting, settling, state_after, run_calls, run_calls-IsReconciled, create_settlement-kept,
}
use nexasalon_api.Tests.Orders as Orders

abbrev closed_order : Order
closed_order = record Orders.first_order {
  status = Records.OrderStatus.closed;
  closed_at = some 150;
  items =
      record {
        id = 20;
        service_id = 30;
        professional_id = 40;
        duration_minutes = 60;
        price = 10000;
        benefit_type = none;
        benefit_amount = none;
        commission = some (record {
          commission_type_snapshot = some percentage;
          commission_value_snapshot = some 4000;
          commission_amount_snapshot = some 4000;
          commission_status = calculated;
        });
        commission_settlement_id = none;
      }
      ∷ [];
}

abbrev db : Db
db = record {
  orders = record Orders.db { orders = closed_order ∷ [] };
  professionals = record { id = 40; is_active = true; branch_id = none } ∷ [];
  adjustments = [];
  settlements = [];
}

abbrev body : SettlementCreate
body = record { professional_id = 40; date_from = 100; date_to = 200; adjustment_ids = 60 ∷ [] }

-- A discount of five, then a settlement of an earlier period, and the one that pays.
abbrev calls : List Call
calls =
    adjusting 1 (record {
      professional_id = 40;
      amount = negsuc 499;
      reason_is_blank = false;
      order_item_id = some 20;
    })
    ∷ settling 300 1
        (record { professional_id = 40; date_from = 0; date_to = 99; adjustment_ids = [] })
    ∷ settling 300 1 body
    ∷ []

runs : Unit {0}
unfolding create_adjustment create_settlement lock_pending_commission_items state_after ◌⊖◌
runs = tt

pays : map (λ x. x.commission_total) (run_calls calls db).settlements ≡ pos 3500 ∷ []
unfolding runs
pays = refl

db-IsReconciled : IsReconciled db
db-IsReconciled = (tt, (λ id h. refl), (λ id h. refl))

run_calls-IsReconciled_example : IsReconciled (run_calls calls db)
run_calls-IsReconciled_example = run_calls-IsReconciled calls db db-IsReconciled

abbrev unadjusted : SettlementCreate
unadjusted = record { professional_id = 40; date_from = 100; date_to = 200; adjustment_ids = [] }

abbrev value : {A : Type 0} → A → Result A → A
value d (ok a) = a
value d (err e) = d

abbrev settled : ℕ × Db
unfolding runs
settled = value (0, db) (create_settlement 300 1 unadjusted db)

settles : create_settlement 300 1 unadjusted db ≡ ok (settled.0, settled.1)
unfolding runs
settles = refl

create_settlement-kept_example :
    map (λ i. i.id) (items_for settled.0 (run_calls calls settled.1).orders.orders)
    ≡ map (λ i. i.id) (lock_pending_commission_items 40 100 200 db)
create_settlement-kept_example =
    ((create_settlement-kept 300 1 unadjusted db (settled.0, settled.1) db-IsReconciled settles).0
      calls).0
