-- ===== src/Orders/Records.antt =====
-- The tables of models/order.py, with the columns of models/cash_register.py and
-- models/appointment.py that closing an order reads or writes, for one organization. An `Order`
-- carries its lists of items, product items and payments (the relationships of the model, in the
-- order of their creation). Prices are in cents, quantities in thousandths of the product's unit.
-- Names and texts are left out, and an audit row keeps what was changed but not the values.
use nexasalon_api.Prelude.{ℕ, Bool, Option, List}
use nexasalon_api.Appointments.Status.{AppointmentStatus}
use nexasalon_api.Stock.Records.{Stock}
use nexasalon_api.Payments.Cents.{ℤ}
use nexasalon_api.Payments.Fees.{PaymentMethod, CardBrand, PaymentFeeRule, FeeResolution}
use nexasalon_api.Payments.Commissions.{ProfessionalService, CommissionResolution}

pub data OrderStatus : Type 0 where
  opened closed cancelled : OrderStatus

pub data BenefitType : Type 0 where
  loyalty courtesy : BenefitType

pub data OrderProductItemKind : Type 0 where
  sale consumption : OrderProductItemKind

-- The four commission columns are `none` until the order is closed.
pub record OrderItem : Type 0 where
  pub id : ℕ
  pub service_id : ℕ
  pub professional_id : ℕ
  pub duration_minutes : ℕ
  pub price : ℕ
  pub benefit_type : Option BenefitType
  pub benefit_amount : Option ℕ
  pub commission : Option CommissionResolution
  pub commission_settlement_id : Option ℕ

pub record OrderProductItem : Type 0 where
  pub id : ℕ
  pub product_id : ℕ
  pub quantity : ℕ
  pub unit_price : ℕ
  pub item_type : OrderProductItemKind
  pub stock_movement_id : Option ℕ

pub record Payment : Type 0 where
  pub id : ℕ
  pub cash_register_id : ℕ
  pub method : PaymentMethod
  pub card_brand : Option CardBrand
  pub installments : Option ℕ
  pub amount : ℕ
  pub created_by : ℕ
  pub fee : FeeResolution
  pub reversed_at : Option ℕ
  pub reversed_by : Option ℕ

pub record Order : Type 0 where
  pub id : ℕ
  pub appointment_id : ℕ
  pub branch_id : ℕ
  pub client_id : Option ℕ
  pub status : OrderStatus
  pub closed_at : Option ℕ
  pub closed_by : Option ℕ
  pub sale_competence_override : Option ℕ
  pub items : List OrderItem
  pub product_items : List OrderProductItem
  pub payments : List Payment

pub data CashRegisterStatus : Type 0 where
  opened closed : CashRegisterStatus

-- The columns from `closed_at` on are `none` until the register is closed.
pub record CashRegister : Type 0 where
  pub id : ℕ
  pub branch_id : ℕ
  pub status : CashRegisterStatus
  pub created_at : ℕ
  pub opened_by : ℕ
  pub initial_amount : ℕ
  pub closed_at : Option ℕ
  pub closed_by : Option ℕ
  pub expected_amount : Option ℤ
  pub counted_amount : Option ℕ
  pub difference : Option ℤ

-- `CashRegisterConfig`, or its defaults where the organization has no row.
pub record EffectiveConfig : Type 0 where
  pub require_open_register_for_order : Bool
  pub require_open_register_for_payment : Bool
  pub require_open_register_for_appointment : Bool
  pub block_if_previous_day_open : Bool
  pub require_close_previous_before_opening_today : Bool
  pub single_open_register_per_branch : Bool
  pub allow_admin_open_close : Bool
  pub allow_receptionist_open_close : Bool

pub record Appointment : Type 0 where
  pub id : ℕ
  pub status : AppointmentStatus
  pub updated_by : Option ℕ

pub data AuditEntity : Type 0 where
  order order_item order_product_item payment appointment cash_register : AuditEntity
  commission_adjustment commission_settlement : AuditEntity

pub data AuditAction : Type 0 where
  create update delete : AuditAction

pub record AuditLog : Type 0 where
  pub entity_type : AuditEntity
  pub entity_id : ℕ
  pub action : AuditAction
  pub user_id : ℕ

pub record Db : Type 0 where
  pub stock : Stock
  pub orders : List Order
  pub registers : List CashRegister
  pub appointments : List Appointment
  pub fee_rules : List PaymentFeeRule
  pub professional_services : List ProfessionalService
  pub config : EffectiveConfig
  pub audit_logs : List AuditLog
  pub next_id : ℕ

-- The bodies of the requests (schemas/order.py).
pub record PaymentCreate : Type 0 where
  pub method : PaymentMethod
  pub card_brand : Option CardBrand
  pub installments : Option ℕ
  pub amount : ℕ
  pub cash_register_id : ℕ

pub record OrderClose : Type 0 where
  pub payments : List PaymentCreate
  pub sale_date : Option ℕ

-- The clock of a request: `datetime.now`, the day of an instant in the effective time zone of a
-- branch, and the noon of a day in it (`zoneinfo`).
pub record Clock : Type 0 where
  pub now : ℕ
  pub operational_date : ℕ → ℕ → ℕ
  pub noon : ℕ → ℕ → ℕ
