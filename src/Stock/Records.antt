-- ===== src/Stock/Records.antt =====
-- The tables of the stock for one organization (models/product.py, models/stock.py): every query
-- filters by organization, so rows of others are not there. A quantity is a whole number of
-- thousandths of the product's unit, a price one of cents. Names and free texts are left out.
-- A new row's id is the next number, where the program draws a fresh UUID.
use nexasalon_api.Prelude.{ℕ, Bool, Option, List}

pub data ProductUnit : Type 0 where
  unit ml liter gram kg box pack meter dose pair : ProductUnit

pub data StockMovementDirection : Type 0 where
  into out : StockMovementDirection

pub data StockMovementReason : Type 0 where
  purchase return adjustment inventory_count transfer_in : StockMovementReason
  sale internal_use damage transfer_out : StockMovementReason

pub record Product : Type 0 where
  pub id : ℕ
  pub unit_of : ProductUnit
  pub is_active : Bool
  pub for_sale : Bool
  pub sale_price : Option ℕ
  pub cost_price : ℕ

pub record StockLevel : Type 0 where
  pub product_id : ℕ
  pub branch_id : ℕ
  pub quantity_on_hand : ℕ

pub record StockMovement : Type 0 where
  pub id : ℕ
  pub product_id : ℕ
  pub branch_id : ℕ
  pub direction : StockMovementDirection
  pub reason : StockMovementReason
  pub quantity : ℕ
  pub unit_cost : Option ℕ
  pub created_by : ℕ
  pub order_id : Option ℕ
  pub transfer_id : Option ℕ
  pub inventory_count_id : Option ℕ
  pub idempotency_key : Option ℕ

pub record StockTransfer : Type 0 where
  pub id : ℕ
  pub product_id : ℕ
  pub origin_branch_id : ℕ
  pub destination_branch_id : ℕ
  pub quantity : ℕ
  pub created_by : ℕ

pub data InventoryCountStatus : Type 0 where
  opened closed : InventoryCountStatus

pub record InventoryCount : Type 0 where
  pub id : ℕ
  pub branch_id : ℕ
  pub status : InventoryCountStatus
  pub created_by : ℕ
  pub closed_at : Option ℕ
  pub closed_by : Option ℕ

pub record InventoryCountItem : Type 0 where
  pub inventory_count_id : ℕ
  pub product_id : ℕ
  pub system_quantity : ℕ
  pub counted_quantity : Option ℕ

pub data AuditEntity : Type 0 where
  stock_movement stock_transfer inventory_count : AuditEntity

pub data AuditAction : Type 0 where
  create update : AuditAction

pub record AuditLog : Type 0 where
  pub entity_type : AuditEntity
  pub entity_id : ℕ
  pub action : AuditAction
  pub user_id : ℕ

pub record Stock : Type 0 where
  pub products : List Product
  pub branches : List ℕ
  pub levels : List StockLevel
  pub movements : List StockMovement
  pub transfers : List StockTransfer
  pub counts : List InventoryCount
  pub count_items : List InventoryCountItem
  pub audit_logs : List AuditLog
  pub next_id : ℕ
