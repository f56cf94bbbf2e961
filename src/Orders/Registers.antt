-- ===== src/Orders/Registers.antt =====
-- What services/cash_register.py checks for an operation on an order: the registers of the branch.
-- The registers are listed by their time of creation.
use nexasalon_api.Prelude.{
  ℕ, Bool, true, false, not, ◌&&◌, Option, none, some, List, find, ltb, ◌==◌, Tx, not_found,
  conflict, validation, or_raise, raise_if, gets, ◌>>=◌, ◌>>◌,
}
use nexasalon_api.Orders.Records.{CashRegister, CashRegisterStatus, EffectiveConfig, Clock, Db}

abbrev pub is_open : CashRegister → Bool
is_open r = elim r.status [ CashRegisterStatus.opened ↦ true | CashRegisterStatus.closed ↦ false ]

abbrev pub is_some {ℓ} : {A : Type ℓ} → Option A → Bool
is_some none = false
is_some (some _) = true

-- `cash_register_repo.get_open_for_branch`
unfoldable pub get_open_for_branch : ℕ → List CashRegister → Option CashRegister
get_open_for_branch branch_id rs = find (λ r. r.branch_id == branch_id && is_open r) rs

-- `_stale_open_register`: an open register of the branch from an earlier day.
unfoldable pub stale_open_register : Clock → ℕ → List CashRegister → Option CashRegister
stale_open_register clock branch_id rs =
    find
      (λ r.
        is_open r
        && (r.branch_id == branch_id
            && ltb (clock.operational_date branch_id r.created_at)
                (clock.operational_date branch_id clock.now)))
      rs

pub data Purpose : Type 0 where
  for_order for_payment for_appointment : Purpose

abbrev pub require_open : EffectiveConfig → Purpose → Bool
require_open config for_order = config.require_open_register_for_order
require_open config for_payment = config.require_open_register_for_payment
require_open config for_appointment = config.require_open_register_for_appointment

unfoldable pub assert_operational_prerequisites : Clock → ℕ → Purpose → Tx Db (Unit {0})
assert_operational_prerequisites clock branch_id purpose = do
  config ← gets (λ s. s.config)
  stale ← gets (λ s. stale_open_register clock branch_id s.registers)
  raise_if (config.block_if_previous_day_open && is_some stale) conflict
  current ← gets (λ s. get_open_for_branch branch_id s.registers)
  raise_if (require_open config purpose && not (is_some current)) validation

-- `cash_register_repo.get`
abbrev pub get_register : ℕ → Db → Option CashRegister
get_register id s = find (λ r. r.id == id) s.registers

unfoldable pub assert_register_open_and_in_org : ℕ → Tx Db (Unit {0})
assert_register_open_and_in_org register_id = do
  register ← (λ s. or_raise (get_register register_id s) not_found s)
  raise_if (not (is_open register)) validation
