-- ===== src/Payments/Fees/Shown.antt =====
-- How the fee of a payment is shown (`breakdown_for_display` of services/payment_fees.py).
use nexasalon_api.Prelude.{
  ℕ, ◌+◌, ◌-◌, ◌*◌, ◌≤◌, ◌≡◌, refl, ap, inl, inr, Bool, true, false, Option, none, some, List,
  arith, leb, if◌then◌else◌, Bool-cases, All, find-All,
}
use nexasalon_api.Payments.Cents.{pos, ◌⊖◌, percent_of, quantize_near, quantize_le}
use nexasalon_api.Payments.Fees.{
  PaymentMethod, pix, cash, debit, credit, loyalty_card, voucher, barter, transfer, bank_slip,
  CardBrand, not_applicable, calculated, unconfigured, PaymentFeeRule, FeeResolution,
  PaymentFeeBreakdown, is_rule_for, find_matching, without_rule, with_rule, resolve_with,
  installments_or_one, resolve_fee, derive_fee_status, breakdown_for_display, paid_with,
}

difference : (a b : ℕ) → b ≤ a → (a ⊖ b) ≡ pos (a - b)
unfolding ◌⊖◌
difference a b h = elim (Bool-cases (leb b a)) [
  | inl e ↦ rw e refl
  | inr e ↦ absurd (ground (arith, e))
]

le_percent : (amount percent : ℕ) → percent ≤ 10000 → percent_of percent amount ≤ amount
le_percent amount percent h = quantize_le (amount * percent) amount (grind arith)

-- The fee is the percentage of the amount to the nearest cent, and the net is the rest.
abbrev pub IsFeeOf : PaymentFeeRule → ℕ → PaymentFeeBreakdown → Type 0
IsFeeOf rule amount b =
    (fee net : ℕ) × (b.fee_amount ≡ some fee)
    × (b.net_amount ≡ some (pos net))
    × (fee + net ≡ amount)
    × (fee * 10000 ≤ amount * rule.fee_percent + 5000)
    × (amount * rule.fee_percent ≤ fee * 10000 + 5000)

abbrev pub shown : PaymentMethod → ℕ → FeeResolution → PaymentFeeBreakdown
shown method amount fee = breakdown_for_display (paid_with method amount fee)

with_rule-IsFeeOf :
    (method : PaymentMethod) (amount : ℕ) (rule : PaymentFeeRule)
    → rule.fee_percent ≤ 10000
    → IsFeeOf rule amount (shown method amount (with_rule rule amount))
unfolding breakdown_for_display derive_fee_status with_rule
with_rule-IsFeeOf method amount rule h =
    let fee = percent_of rule.fee_percent amount in
    let small = le_percent amount rule.fee_percent h in
    let (up, down) = quantize_near (amount * rule.fee_percent) in
    (fee, amount - fee, refl, ap some (difference amount fee small), omega (arith, small), up, down)

-- How a payment by a card, or by a method without fees, is shown when there is a matching active
-- rule, and when there is none.
abbrev pub IsShown : Option PaymentFeeRule → Bool → ℕ → PaymentFeeBreakdown → Type 0
IsShown (some rule) needs_rule amount b = (b.fee_status ≡ calculated) × IsFeeOf rule amount b
IsShown none true amount b =
    (b.fee_status ≡ unconfigured) × (b.fee_amount ≡ none) × (b.net_amount ≡ none)
IsShown none false amount b =
    (b.fee_status ≡ not_applicable) × (b.fee_amount ≡ some 0) × (b.net_amount ≡ some (pos amount))

-- The rule that a payment looks for: Pix by the inner brand in one instalment, a debit card always
-- in one instalment, a credit card in as many as were given.
abbrev pub matching_rule :
    List PaymentFeeRule → PaymentMethod → Option CardBrand → Option ℕ → Option PaymentFeeRule
matching_rule rules pix brand installments =
    find_matching pix (some CardBrand.not_applicable) 1 rules
matching_rule rules debit brand installments = find_matching debit brand 1 rules
matching_rule rules credit brand installments =
    find_matching credit brand (installments_or_one installments) rules
matching_rule rules _ brand installments = none

abbrev pub is_card : PaymentMethod → Bool
is_card debit = true
is_card credit = true
is_card _ = false

find_matching-All :
    (method : PaymentMethod) (brand : Option CardBrand) (n : ℕ) (rules : List PaymentFeeRule)
    (rule : PaymentFeeRule)
    → All (λ r. r.fee_percent ≤ 10000) rules
    → find_matching method brand n rules ≡ some rule
    → rule.fee_percent ≤ 10000
unfolding find_matching
find_matching-All method none n rules rule h e = cc
find_matching-All method (some brand) n rules rule h e =
    find-All (λ r. r.fee_percent ≤ 10000) (is_rule_for method brand n) rules h e

with_rule-status :
    (method : PaymentMethod) (amount : ℕ) (rule : PaymentFeeRule)
    → (shown method amount (with_rule rule amount)).fee_status ≡ calculated
unfolding breakdown_for_display derive_fee_status with_rule
with_rule-status method amount rule = refl

resolve_with-IsShown :
    (method : PaymentMethod) (amount : ℕ) (o : Option PaymentFeeRule)
    → ((rule : PaymentFeeRule) → o ≡ some rule → rule.fee_percent ≤ 10000)
    → (card : Bool)
    → IsShown o card amount (
        shown method amount (resolve_with o (if card then unconfigured else not_applicable) amount))
unfolding breakdown_for_display derive_fee_status
resolve_with-IsShown method amount none h true = (refl, refl, refl)
resolve_with-IsShown method amount none h false = (refl, refl, refl)
resolve_with-IsShown method amount (some rule) h card =
    (with_rule-status method amount rule, with_rule-IsFeeOf method amount rule (h rule refl))

no_fee :
    (method : PaymentMethod) (amount : ℕ)
    → IsShown none false amount (shown method amount (without_rule not_applicable))
no_fee method amount = resolve_with-IsShown method amount none (λ r e. absurd cc) false

-- When no rule asks for more than 100%, a payment shows a fee that is its rule's percentage to the
-- nearest cent, and a net amount such that both make up what was paid; without a matching active
-- rule a card shows an unknown fee, and every other method no fee and all of the amount.
pub resolve_fee-IsShown :
    (rules : List PaymentFeeRule) (method : PaymentMethod) (brand : Option CardBrand) (n : Option ℕ)
    (amount : ℕ)
    → All (λ r. r.fee_percent ≤ 10000) rules
    → IsShown
        (matching_rule rules method brand n)
        (is_card method)
        amount
        (shown method amount (resolve_fee rules method brand n amount))
unfolding resolve_fee
resolve_fee-IsShown rules pix brand n amount h =
    resolve_with-IsShown pix amount _ (λ r e. find_matching-All pix _ 1 rules r h e) false
resolve_fee-IsShown rules debit brand n amount h =
    resolve_with-IsShown debit amount _ (λ r e. find_matching-All debit brand 1 rules r h e) true
resolve_fee-IsShown rules credit brand n amount h =
    resolve_with-IsShown credit amount _ (λ r e. find_matching-All credit brand _ rules r h e) true
resolve_fee-IsShown rules cash brand n amount h = no_fee cash amount
resolve_fee-IsShown rules loyalty_card brand n amount h = no_fee loyalty_card amount
resolve_fee-IsShown rules voucher brand n amount h = no_fee voucher amount
resolve_fee-IsShown rules barter brand n amount h = no_fee barter amount
resolve_fee-IsShown rules transfer brand n amount h = no_fee transfer amount
resolve_fee-IsShown rules bank_slip brand n amount h = no_fee bank_slip amount
