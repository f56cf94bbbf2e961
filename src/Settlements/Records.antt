-- ===== src/Settlements/Records.antt =====
-- The tables of models/commission.py beside those of the orders and the professionals, and the bodies
-- of the requests of schemas/commission.py. Amounts are whole cents.
use nexasalon_api.Prelude.{ℕ, Bool, Option, List}
use nexasalon_api.Payments.Cents.{ℤ}
use nexasalon_api.Scheduling.Records.{Professional}
use nexasalon_api.Orders.Records as Orders

pub record CommissionAdjustment : Type 0 where
  pub id : ℕ
  pub professional_id : ℕ
  pub order_item_id : Option ℕ
  pub commission_settlement_id : Option ℕ
  pub amount : ℤ
  pub created_by : ℕ

pub record CommissionSettlement : Type 0 where
  pub id : ℕ
  pub professional_id : ℕ
  pub period_start : ℕ
  pub period_end : ℕ
  pub production_total : ℕ
  pub commission_total : ℤ
  pub created_by : ℕ
  pub paid_at : ℕ

pub record Db : Type 0 where
  pub orders : Orders.Db
  pub professionals : List Professional
  pub adjustments : List CommissionAdjustment
  pub settlements : List CommissionSettlement

-- The body of a new adjustment; of its reason only whether `strip` leaves nothing of it.
pub record AdjustmentCreate : Type 0 where
  pub professional_id : ℕ
  pub amount : ℤ
  pub reason_is_blank : Bool
  pub order_item_id : Option ℕ

pub record SettlementCreate : Type 0 where
  pub professional_id : ℕ
  pub date_from : ℕ
  pub date_to : ℕ
  pub adjustment_ids : List ℕ
