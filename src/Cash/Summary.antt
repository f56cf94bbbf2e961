-- ===== src/Cash/Summary.antt =====
-- What the totals of a register are.
use nexasalon_api.Prelude.{
  ℕ, ◌+◌, ◌≡◌, refl, sym, ap, ◌∙◌, Bool, true, false, ◌&&◌, not, List, [], ◌∷◌, sum_of, arith,
  if◌then◌else◌, filter, Bool-cases, inl, inr,
}
use nexasalon_api.Payments.Fees.{
  PaymentMethod, pix, cash, debit, credit, loyalty_card, voucher, barter, transfer, bank_slip,
}
use nexasalon_api.Payments.Cents.{◌⊖◌}
use nexasalon_api.Cash.{
  RegisterPayment, CashMovement, supply, withdrawal, is_method, Totals, no_totals, count_payment,
  count_payments, sum_where, is_supply, is_withdrawal, RegisterSummary, build_summary,
}

-- The active payments of a method, and all of them.
abbrev pub received : PaymentMethod → List RegisterPayment → ℕ
received m ps = sum_of (λ p. if not p.is_reversed && is_method p.method m then p.amount else 0) ps

abbrev pub received_all : List RegisterPayment → ℕ
received_all ps = sum_of (λ p. if p.is_reversed then 0 else p.amount) ps

-- The whole catalogue of methods.
abbrev pub catalogue : List PaymentMethod
catalogue =
    pix ∷ cash ∷ debit ∷ credit ∷ loyalty_card ∷ voucher ∷ barter ∷ transfer ∷ bank_slip ∷ []

part :
    (i : Bool) (x : ℕ × ℕ) (a : ℕ)
    → (if◌then◌else◌ {A = ℕ × ℕ} i (x.0 + a, x.1 + 1) x).0 ≡ x.0 + (if i then a else 0)
part true x a = refl
part false x a = omega arith

next_method :
    (m : PaymentMethod) (reversed : Bool) (p : RegisterPayment) (t : Totals)
    → ((if◌then◌else◌ {A = Totals} reversed t (count_payment p t)).totals_by_method m).0
      ≡ (t.totals_by_method m).0 + (if not reversed && is_method p.method m then p.amount else 0)
unfolding count_payment
next_method m true p t = omega arith
next_method m false p t = part (is_method p.method m) (t.totals_by_method m) p.amount

next_revenue :
    (reversed : Bool) (p : RegisterPayment) (t : Totals)
    → (if◌then◌else◌ {A = Totals} reversed t (count_payment p t)).total_revenue
      ≡ t.total_revenue + (if reversed then 0 else p.amount)
unfolding count_payment
next_revenue true p t = omega arith
next_revenue false p t = refl

kept_or_more : (i : Bool) (x a : ℕ) → (if i then x + a else x) ≡ x + (if i then a else 0)
kept_or_more true x a = refl
kept_or_more false x a = omega arith

next_cash :
    (reversed : Bool) (p : RegisterPayment) (t : Totals)
    → (if◌then◌else◌ {A = Totals} reversed t (count_payment p t)).cash_payments_total
      ≡ t.cash_payments_total + (if not reversed && is_method p.method cash then p.amount else 0)
unfolding count_payment
next_cash true p t = omega arith
next_cash false p t = kept_or_more (is_method p.method cash) t.cash_payments_total p.amount

count_payments-method :
    (m : PaymentMethod) (ps : List RegisterPayment) (t : Totals)
    → ((count_payments ps t).totals_by_method m).0 ≡ (t.totals_by_method m).0 + received m ps
unfolding count_payments
count_payments-method m [] t = omega arith
count_payments-method m (p ∷ ps) t = omega (
  arith,
  count_payments-method m ps (if p.is_reversed then t else count_payment p t),
  next_method m p.is_reversed p t,
)

count_payments-revenue :
    (ps : List RegisterPayment) (t : Totals)
    → (count_payments ps t).total_revenue ≡ t.total_revenue + received_all ps
unfolding count_payments
count_payments-revenue [] t = omega arith
count_payments-revenue (p ∷ ps) t = omega (
  arith,
  count_payments-revenue ps (if p.is_reversed then t else count_payment p t),
  next_revenue p.is_reversed p t,
)

count_payments-cash :
    (ps : List RegisterPayment) (t : Totals)
    → (count_payments ps t).cash_payments_total ≡ t.cash_payments_total + received cash ps
unfolding count_payments
count_payments-cash [] t = omega arith
count_payments-cash (p ∷ ps) t = omega (
  arith,
  count_payments-cash ps (if p.is_reversed then t else count_payment p t),
  next_cash p.is_reversed p t,
)

-- A payment is counted for one method of the catalogue, and for no other.
one_method :
    (m : PaymentMethod) (a : ℕ) → sum_of (λ n. if is_method m n then a else 0) catalogue ≡ a
one_method pix a = omega arith
one_method cash a = omega arith
one_method debit a = omega arith
one_method credit a = omega arith
one_method loyalty_card a = omega arith
one_method voucher a = omega arith
one_method barter a = omega arith
one_method transfer a = omega arith
one_method bank_slip a = omega arith

one_active :
    (reversed : Bool) (m : PaymentMethod) (a : ℕ)
    → sum_of (λ n. if not reversed && is_method m n then a else 0) catalogue
      ≡ (if reversed then 0 else a)
one_active true m a = omega arith
one_active false m a = one_method m a

received-catalogue :
    (ps : List RegisterPayment) → sum_of (λ m. received m ps) catalogue ≡ received_all ps
received-catalogue [] = omega arith
received-catalogue (p ∷ ps) =
    omega (arith, received-catalogue ps, one_active p.is_reversed p.method p.amount)

sum_of-same :
    (f g : PaymentMethod → ℕ) (ms : List PaymentMethod)
    → ((m : PaymentMethod) → f m ≡ g m)
    → sum_of f ms ≡ sum_of g ms
sum_of-same f g [] h = refl
sum_of-same f g (m ∷ ms) h = omega (arith, h m, sum_of-same f g ms h)

by_type :
    (ms : List CashMovement)
    → sum_where is_supply ms + sum_where is_withdrawal ms ≡ sum_of (λ m. m.amount) ms
by_type [] = refl
by_type (m ∷ ms) =
    elim m.type_of
      as (λ t.
        ((if elim t [ supply ↦ true | withdrawal ↦ false ] then m.amount else 0)
            + sum_where is_supply ms)
          + ((if elim t [ supply ↦ false | withdrawal ↦ true ] then m.amount else 0)
              + sum_where is_withdrawal ms)
        ≡ m.amount + sum_of (λ m. m.amount) ms) [
          | supply ↦ omega (arith, by_type ms)
          | withdrawal ↦ omega (arith, by_type ms)
        ]

-- The movements of some kind, listed and then added.
abbrev pub listed : (CashMovement → Bool) → List CashMovement → ℕ
listed f ms = sum_of (λ m. m.amount) (filter f ms)

sum_where-listed : (f : CashMovement → Bool) (ms : List CashMovement) → sum_where f ms ≡ listed f ms
sum_where-listed f [] = refl
sum_where-listed f (m ∷ ms) = elim (Bool-cases (f m)) [
  | inl e ↦ rw e (ap (λ n. m.amount + n) (sum_where-listed f ms))
  | inr e ↦ rw e (omega (arith, sum_where-listed f ms))
]

-- What the figures of a summary say of the payments and the movements.
abbrev pub Adds : ℕ → List RegisterPayment → List CashMovement → RegisterSummary → Type 0
Adds initial_amount payments movements s =
    ((m : PaymentMethod) → (s.totals_by_method m).0 ≡ received m payments)
    × (s.total_revenue ≡ sum_of (λ m. (s.totals_by_method m).0) catalogue)
    × (s.total_revenue ≡ received_all payments)
    × (s.expected_cash_balance
        ≡ (initial_amount + (s.totals_by_method cash).0 + s.supplies_cash_total)
          ⊖ s.withdrawals_cash_total)
    × (s.supplies_total ≡ listed is_supply movements)
    × (s.withdrawals_total ≡ listed is_withdrawal movements)
    × (s.supplies_cash_total ≡ listed (λ m. is_supply m && is_method m.method cash) movements)
    × (s.withdrawals_cash_total
        ≡ listed (λ m. is_withdrawal m && is_method m.method cash) movements)
    × (s.supplies_total + s.withdrawals_total ≡ sum_of (λ m. m.amount) movements)

-- In the summary of a register the total of each method is that of its payments that are not
-- reversed, the revenue is the sum of these totals over the whole catalogue of methods, and the
-- expected cash is the initial amount with the cash payments and cash supplies, less the cash
-- withdrawals. The supplies and the withdrawals, in all methods and in cash, are the sums over the
-- manual movements of that type and, for the cash totals, in cash; together they are all movements.
pub build_summary-Adds :
    (initial_amount : ℕ) (payments : List RegisterPayment) (movements : List CashMovement)
    → Adds initial_amount payments movements (build_summary initial_amount payments movements)
unfolding build_summary
build_summary-Adds initial payments movements =
    let t = count_payments payments no_totals in
    let by_method : (m : PaymentMethod) → (t.totals_by_method m).0 ≡ received m payments =
      λ m. omega (arith, count_payments-method m payments no_totals) in
    let revenue : t.total_revenue ≡ received_all payments =
      omega (arith, count_payments-revenue payments no_totals) in
    let in_cash : t.cash_payments_total ≡ (t.totals_by_method cash).0 =
      omega (arith, count_payments-cash payments no_totals, by_method cash) in
    (
      by_method,
      revenue ∙ sym (received-catalogue payments) ∙ sym (sum_of-same _ _ catalogue by_method),
      revenue,
      ap
          (λ n.
            (initial + n + sum_where (λ m. is_supply m && is_method m.method cash) movements)
            ⊖ sum_where (λ m. is_withdrawal m && is_method m.method cash) movements)
          in_cash,
      sum_where-listed is_supply movements,
      sum_where-listed is_withdrawal movements,
      sum_where-listed (λ m. is_supply m && is_method m.method cash) movements,
      sum_where-listed (λ m. is_withdrawal m && is_method m.method cash) movements,
      by_type movements,
    )
