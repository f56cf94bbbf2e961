-- ===== src/Payments/Fees.antt =====
-- services/payment_fees.py, over the rules of models/order.py. An amount is in cents, a percentage
-- in hundredths of a percent; the rules are those of one organization.
pub mod Shown
use nexasalon_api.Prelude.{
  ℕ, suc, ◌+◌, ◌-◌, ◌*◌, ◌≤◌, ◌≡◌, ◌≢◌, refl, ap, sym, ◌∙◌, ◌⊎◌, inl, inr, Bool, true, false, ◌&&◌,
  Option, none, some, List, arith, find, ltb, leb, ◌==◌, if◌then◌else◌, Bool-cases, Option-cases,
  All, find-All,
}
use nexasalon_api.Payments.Cents.{
  ℤ, pos, negsuc, ◌⊖◌, percent_of, quantize, quantize_near, quantize_le,
}

pub data PaymentMethod : Type 0 where
  pix cash debit credit loyalty_card voucher barter transfer bank_slip : PaymentMethod

pub data CardBrand : Type 0 where
  visa mastercard elo amex hipercard other not_applicable : CardBrand

pub data PaymentFeeStatus : Type 0 where
  not_applicable calculated unconfigured : PaymentFeeStatus

pub record PaymentFeeRule : Type 0 where
  pub id : ℕ
  pub method : PaymentMethod
  pub card_brand : CardBrand
  pub installments : ℕ
  pub fee_percent : ℕ
  pub is_active : Bool

pub record FeeResolution : Type 0 where
  pub payment_fee_rule_id : Option ℕ
  pub fee_percent_snapshot : Option ℕ
  pub fee_amount_snapshot : Option ℕ
  pub net_amount_snapshot : Option ℤ
  pub fee_status : PaymentFeeStatus

abbrev pub method_code : PaymentMethod → ℕ
method_code pix = 0
method_code cash = 1
method_code debit = 2
method_code credit = 3
method_code loyalty_card = 4
method_code voucher = 5
method_code barter = 6
method_code transfer = 7
method_code bank_slip = 8

abbrev pub brand_code : CardBrand → ℕ
brand_code visa = 0
brand_code mastercard = 1
brand_code elo = 2
brand_code amex = 3
brand_code hipercard = 4
brand_code other = 5
brand_code CardBrand.not_applicable = 6

abbrev pub is_rule_for : PaymentMethod → CardBrand → ℕ → PaymentFeeRule → Bool
is_rule_for method brand installments r =
    method_code r.method == method_code method
    && brand_code r.card_brand == brand_code brand
    && r.installments == installments
    && r.is_active

-- `payment_fee_rule_repo.find_matching`
unfoldable pub find_matching :
    PaymentMethod → Option CardBrand → ℕ → List PaymentFeeRule → Option PaymentFeeRule
find_matching method none installments rules = none
find_matching method (some brand) installments rules =
    find (is_rule_for method brand installments) rules

abbrev pub without_rule : PaymentFeeStatus → FeeResolution
without_rule status = record {
  payment_fee_rule_id = none;
  fee_percent_snapshot = none;
  fee_amount_snapshot = none;
  net_amount_snapshot = none;
  fee_status = status;
}

-- The end of `resolve_fee`: a rule was found.
unfoldable pub with_rule : PaymentFeeRule → ℕ → FeeResolution
with_rule rule amount =
    let fee_amount = percent_of rule.fee_percent amount in
    record {
      payment_fee_rule_id = some rule.id;
      fee_percent_snapshot = some rule.fee_percent;
      fee_amount_snapshot = some fee_amount;
      net_amount_snapshot = some (amount ⊖ fee_amount);
      fee_status = calculated;
    }

abbrev pub resolve_with : Option PaymentFeeRule → PaymentFeeStatus → ℕ → FeeResolution
resolve_with none status amount = without_rule status
resolve_with (some rule) status amount = with_rule rule amount

-- `installments or 1`
abbrev pub installments_or_one : Option ℕ → ℕ
installments_or_one none = 1
installments_or_one (some n) = if n == 0 then 1 else n

unfoldable pub resolve_fee :
    List PaymentFeeRule → PaymentMethod → Option CardBrand → Option ℕ → ℕ → FeeResolution
resolve_fee rules pix brand installments amount =
    resolve_with (find_matching pix (some CardBrand.not_applicable) 1 rules) not_applicable amount
resolve_fee rules debit brand installments amount =
    resolve_with (find_matching debit brand 1 rules) unconfigured amount
resolve_fee rules credit brand installments amount =
    resolve_with (find_matching credit brand (installments_or_one installments) rules) unconfigured
      amount
resolve_fee rules _ brand installments amount = without_rule not_applicable

-- What the display reads of a payment.
pub record PaidFee : Type 0 where
  pub method : PaymentMethod
  pub amount : ℕ
  pub fee_amount_snapshot : Option ℕ
  pub net_amount_snapshot : Option ℤ
  pub fee_status : Option PaymentFeeStatus

unfoldable pub derive_fee_status : PaidFee → PaymentFeeStatus
derive_fee_status p = elim p.fee_status [
  | some status ↦ status
  | none ↦ elim p.method [ debit ↦ unconfigured | credit ↦ unconfigured | _ ↦ not_applicable ]
]

pub record PaymentFeeBreakdown : Type 0 where
  pub fee_status : PaymentFeeStatus
  pub fee_amount : Option ℕ
  pub net_amount : Option ℤ

unfoldable pub breakdown_for_display : PaidFee → PaymentFeeBreakdown
breakdown_for_display p = elim (derive_fee_status p) [
  | not_applicable ↦ record {
    fee_status = not_applicable;
    fee_amount = some 0;
    net_amount = some (pos p.amount);
  }
  | calculated ↦ record {
    fee_status = calculated;
    fee_amount = p.fee_amount_snapshot;
    net_amount = p.net_amount_snapshot;
  }
  | unconfigured ↦ record { fee_status = unconfigured; fee_amount = none; net_amount = none }
]

-- The payment that `payment_repo.create` stores with the resolved fee.
abbrev pub paid_with : PaymentMethod → ℕ → FeeResolution → PaidFee
paid_with method amount fee = record {
  method = method;
  amount = amount;
  fee_amount_snapshot = fee.fee_amount_snapshot;
  net_amount_snapshot = fee.net_amount_snapshot;
  fee_status = some fee.fee_status;
}
