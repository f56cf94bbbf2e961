-- ===== src/Tests/Money.antt =====
-- The registers, the fees and the rate limiter.
use nexasalon_api.Prelude.{
  false, ◌≤◌, ◌<◌, ◌≡◌, ◌↔◌, arith, true, none, some, List, [], ◌∷◌, map, refl, All,
}
use nexasalon_api.Payments.Fees.{cash, PaymentFeeRule, credit, visa, resolve_fee}
use nexasalon_api.Payments.Fees.Shown.{IsShown, matching_rule, shown, resolve_fee-IsShown}
use nexasalon_api.Cash.{RegisterPayment, CashMovement, supply, build_summary}
use nexasalon_api.Cash.Summary.{Adds, build_summary-Adds}
use nexasalon_api.Cash.Registers.{RoleName, open_register, close_register}
use nexasalon_api.Cash.Registers.Single.{
  Call, opening, closing, IsSingle, state_after, run_calls, run_calls-IsSingle,
}
use nexasalon_api.Orders.Registers.{is_open, get_open_for_branch, stale_open_register}
use nexasalon_api.Tests.Orders as Orders
use nexasalon_api.RateLimit.{Attempt, allowed_at, hit, replay, allowed}
use nexasalon_api.RateLimit.Window.{IsOrdered, in_window, recent, hit_iff, hit-bounded}

abbrev receipts : List RegisterPayment
receipts =
    record { order_id = 1; method = cash; amount = 4000; is_reversed = false }
    ∷ record { order_id = 1; method = credit; amount = 5000; is_reversed = false }
    ∷ record { order_id = 2; method = cash; amount = 700; is_reversed = true }
    ∷ []

abbrev handed : List CashMovement
handed = record { type_of = supply; method = cash; amount = 1000 } ∷ []

build_summary-Adds_example : Adds 2000 receipts handed (build_summary 2000 receipts handed)
build_summary-Adds_example = build_summary-Adds 2000 receipts handed

-- The second branch opens a register, the first is refused a second one and closes its own, and one
-- of the two callers may not.
abbrev calls : List Call
calls =
    opening Orders.clock 1 RoleName.other 11 2000
    ∷ opening Orders.clock 1 RoleName.admin 10 2000
    ∷ closing Orders.clock 1 RoleName.receptionist [] 3 none
    ∷ closing Orders.clock 1 RoleName.admin [] 3 (some 5000)
    ∷ []

runs : Unit {0}
unfolding open_register close_register get_open_for_branch stale_open_register state_after
runs = tt

closed_after : map is_open (run_calls calls Orders.db).registers ≡ false ∷ true ∷ []
unfolding runs
closed_after = refl

db-IsSingle : IsSingle Orders.db
db-IsSingle b = ground arith

run_calls-IsSingle_example : IsSingle (run_calls calls Orders.db)
run_calls-IsSingle_example = run_calls-IsSingle calls Orders.db refl db-IsSingle

abbrev rules : List PaymentFeeRule
rules =
    record {
      id = 9;
      method = credit;
      card_brand = visa;
      installments = 1;
      fee_percent = 349;
      is_active = true;
    }
    ∷ []

rules-bounded : All (λ r. r.fee_percent ≤ 10000) rules
rules-bounded = (omega arith, tt)

resolve_fee-IsShown_example :
    IsShown
      (matching_rule rules credit (some visa) none)
      true
      5000
      (shown credit 5000 (resolve_fee rules credit (some visa) none 5000))
resolve_fee-IsShown_example = resolve_fee-IsShown rules credit (some visa) none 5000 rules-bounded

abbrev attempts : List Attempt
attempts =
    record { key = 1; at = 30 } ∷ record { key = 2; at = 20 } ∷ record { key = 1; at = 10 } ∷ []

attempts-IsOrdered : IsOrdered attempts
attempts-IsOrdered = ((omega arith, (omega arith, tt)), ((omega arith, tt), (tt, tt)))

attempts-past : All (λ a. a.at ≤ 40) attempts
attempts-past = (omega arith, (omega arith, (omega arith, tt)))

hit-bounded_example : in_window 60 40 (allowed_at 2 60 1 attempts) ≤ 2
hit-bounded_example = hit-bounded 2 60 1 40 attempts attempts-IsOrdered

hit_iff_example :
    ((hit 2 60 1 40 (replay 2 60 attempts)).0 ≡ allowed)
    ↔ (recent 60 40 (allowed_at 2 60 1 attempts) < 2)
hit_iff_example = hit_iff 2 60 1 40 attempts attempts-IsOrdered attempts-past
