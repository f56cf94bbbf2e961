-- ===== src/Cash.antt =====
-- `build_summary` of services/cash_register.py: the totals of one cash register, from its payments
-- and its manual movements. Amounts are in cents; the register's row is its initial amount.
pub mod Summary
pub mod Registers
use nexasalon_api.Prelude.{
  ℕ, ◌+◌, ◌-◌, ◌/◌, Bool, true, false, ◌&&◌, ◌||◌, Option, none, some, List, [], ◌∷◌, length,
  sum_of, ◌==◌, if◌then◌else◌,
}
use nexasalon_api.Payments.Fees.{PaymentMethod, cash, method_code}
use nexasalon_api.Payments.Cents.{ℤ, ◌⊖◌}

-- What the summary reads of a `Payment`.
pub record RegisterPayment : Type 0 where
  pub order_id : ℕ
  pub method : PaymentMethod
  pub amount : ℕ
  pub is_reversed : Bool

pub data CashMovementType : Type 0 where
  supply withdrawal : CashMovementType

pub record CashMovement : Type 0 where
  pub type_of : CashMovementType
  pub method : PaymentMethod
  pub amount : ℕ

abbrev pub is_method : PaymentMethod → PaymentMethod → Bool
is_method a b = method_code a == method_code b

-- The variables of the loop over the payments; `totals_by_method` is a function of the method.
pub record Totals : Type 0 where
  pub totals_by_method : PaymentMethod → ℕ × ℕ
  pub total_revenue : ℕ
  pub cash_payments_total : ℕ
  pub order_ids : List ℕ

abbrev pub no_totals : Totals
no_totals = record {
  totals_by_method = λ m. (0, 0);
  total_revenue = 0;
  cash_payments_total = 0;
  order_ids = [];
}

abbrev pub member : ℕ → List ℕ → Bool
member x [] = false
member x (y ∷ ys) = y == x || member x ys

-- `order_ids.add(...)`
abbrev pub add_id : ℕ → List ℕ → List ℕ
add_id x ids = if member x ids then ids else x ∷ ids

-- The body of the loop, for a payment that is not reversed.
unfoldable pub count_payment : RegisterPayment → Totals → Totals
count_payment p t = record {
  totals_by_method = λ m.
      if is_method p.method m
      then ((t.totals_by_method m).0 + p.amount, (t.totals_by_method m).1 + 1)
      else t.totals_by_method m;
  total_revenue = t.total_revenue + p.amount;
  cash_payments_total =
      if is_method p.method cash then t.cash_payments_total + p.amount else t.cash_payments_total;
  order_ids = add_id p.order_id t.order_ids;
}

unfoldable pub count_payments : List RegisterPayment → Totals → Totals
count_payments [] t = t
count_payments (p ∷ ps) t = count_payments ps (if p.is_reversed then t else count_payment p t)

abbrev pub is_supply : CashMovement → Bool
is_supply m = elim m.type_of [ supply ↦ true | withdrawal ↦ false ]

abbrev pub is_withdrawal : CashMovement → Bool
is_withdrawal m = elim m.type_of [ supply ↦ false | withdrawal ↦ true ]

-- `sum(m.amount for m in movements if ...)`
abbrev pub sum_where : (CashMovement → Bool) → List CashMovement → ℕ
sum_where f ms = sum_of (λ m. if f m then m.amount else 0) ms

pub record RegisterSummary : Type 0 where
  pub totals_by_method : PaymentMethod → ℕ × ℕ
  pub total_revenue : ℕ
  pub cash_payments_total : ℕ
  pub supplies_total : ℕ
  pub withdrawals_total : ℕ
  pub supplies_cash_total : ℕ
  pub withdrawals_cash_total : ℕ
  pub expected_cash_balance : ℤ
  pub orders_count : ℕ
  pub total_entries : ℕ

-- `average_ticket`, the revenue by the number of orders, is left out: a quotient of decimals.
unfoldable pub build_summary : ℕ → List RegisterPayment → List CashMovement → RegisterSummary
build_summary initial_amount payments movements =
    let t = count_payments payments no_totals in
    let supplies_cash_total = sum_where (λ m. is_supply m && is_method m.method cash) movements in
    let withdrawals_cash_total =
      sum_where (λ m. is_withdrawal m && is_method m.method cash) movements in
    record {
      totals_by_method = t.totals_by_method;
      total_revenue = t.total_revenue;
      cash_payments_total = t.cash_payments_total;
      supplies_total = sum_where is_supply movements;
      withdrawals_total = sum_where is_withdrawal movements;
      supplies_cash_total = supplies_cash_total;
      withdrawals_cash_total = withdrawals_cash_total;
      expected_cash_balance =
          (initial_amount + t.cash_payments_total + supplies_cash_total) ⊖ withdrawals_cash_total;
      orders_count = length t.order_ids;
      total_entries = t.total_revenue + sum_where is_supply movements;
    }
