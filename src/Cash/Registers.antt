-- ===== src/Cash/Registers.antt =====
-- `open_register` and `close_register` of services/cash_register.py, over the tables of the orders
-- and the manual movements of the registers.
pub mod Single
use nexasalon_api.Prelude.{
  ℕ, suc, ◌+◌, Bool, true, false, not, ◌&&◌, Option, none, some, List, [], ◌∷◌, ◌++◌, map, filter,
  ◌==◌, if◌then◌else◌, Tx, Result, ok, err, not_found, conflict, forbidden, pure, gets, modify,
  raise_if, or_raise, ◌>>=◌, ◌>>◌,
}
use nexasalon_api.Payments.Cents.{ℤ, pos, negsuc, ◌⊖◌}
use nexasalon_api.Orders.Records as Orders
use nexasalon_api.Orders.Records.{
  Order, Payment, CashRegister, CashRegisterStatus, EffectiveConfig, Clock, cash_register, create,
  update,
}
use nexasalon_api.Orders.Store.{audit}
use nexasalon_api.Orders.Registers.{
  is_open, is_some, stale_open_register, get_open_for_branch, get_register,
}
use nexasalon_api.Cash.{RegisterPayment, CashMovement, RegisterSummary, build_summary}

-- A manual movement of a register.
pub record RegisterMovement : Type 0 where
  pub cash_register_id : ℕ
  pub movement : CashMovement

-- The names of the roles that the toggles are about.
pub data RoleName : Type 0 where
  admin receptionist other : RoleName

abbrev pub role_allowed : EffectiveConfig → RoleName → Bool
role_allowed config admin = config.allow_admin_open_close
role_allowed config receptionist = config.allow_receptionist_open_close
role_allowed config other = true

-- `_assert_role_allowed_to_open_close`
abbrev pub assert_role_allowed : RoleName → Tx Orders.Db (Unit {0})
assert_role_allowed role s = raise_if (not (role_allowed s.config role)) forbidden s

-- `cash_register_repo.create`
abbrev pub new_register : ℕ → ℕ → ℕ → ℕ → ℕ → CashRegister
new_register id branch_id now actor initial_amount = record {
  id = id;
  branch_id = branch_id;
  status = CashRegisterStatus.opened;
  created_at = now;
  opened_by = actor;
  initial_amount = initial_amount;
  closed_at = none;
  closed_by = none;
  expected_amount = none;
  counted_amount = none;
  difference = none;
}

abbrev pub insert_register : Clock → ℕ → ℕ → ℕ → Tx Orders.Db ℕ
insert_register clock actor branch_id initial_amount s = ok (
  s.next_id,
  record s {
    registers = s.registers ++ new_register s.next_id branch_id clock.now actor initial_amount ∷ [];
    next_id = suc s.next_id;
  },
)

abbrev pub assert_previous_closed : Clock → ℕ → Tx Orders.Db (Unit {0})
assert_previous_closed clock branch_id s =
    raise_if
      (s.config.require_close_previous_before_opening_today
        && is_some (stale_open_register clock branch_id s.registers))
      conflict s

abbrev pub assert_none_open : ℕ → Tx Orders.Db (Unit {0})
assert_none_open branch_id s =
    raise_if
      (s.config.single_open_register_per_branch
        && is_some (get_open_for_branch branch_id s.registers))
      conflict s

unfoldable pub open_register : Clock → ℕ → RoleName → ℕ → ℕ → Tx Orders.Db ℕ
open_register clock actor role branch_id initial_amount = do
  assert_role_allowed role
  assert_previous_closed clock branch_id
  assert_none_open branch_id
  id ← insert_register clock actor branch_id initial_amount
  audit actor cash_register id create
  pure id

-- `payment_repo.list_for_register`
abbrev pub register_payment : ℕ → Payment → RegisterPayment
register_payment order_id p = record {
  order_id = order_id;
  method = p.method;
  amount = p.amount;
  is_reversed = is_some p.reversed_at;
}

abbrev pub payments_of : ℕ → List Order → List RegisterPayment
payments_of register_id [] = []
payments_of register_id (o ∷ os) =
    map (register_payment o.id) (filter (λ p. p.cash_register_id == register_id) o.payments)
    ++ payments_of register_id os

-- `cash_movement_repo.list_for_register`
abbrev pub movements_of : ℕ → List RegisterMovement → List CashMovement
movements_of register_id ms =
    map (λ m. m.movement) (filter (λ m. m.cash_register_id == register_id) ms)

abbrev pub summary_of : CashRegister → List RegisterMovement → Orders.Db → RegisterSummary
summary_of r ms s =
    build_summary r.initial_amount (payments_of r.id s.orders) (movements_of r.id ms)

-- `counted_amount - expected`
abbrev pub minus : ℕ → ℤ → ℤ
minus n (pos m) = n ⊖ m
minus n (negsuc m) = pos (n + m + 1)

abbrev pub difference_of : Option ℕ → ℤ → Option ℤ
difference_of none expected = none
difference_of (some counted) expected = some (minus counted expected)

abbrev pub closed_row : ℕ → ℕ → Option ℕ → ℤ → CashRegister → CashRegister
closed_row now actor counted_amount expected r = record r {
  status = CashRegisterStatus.closed;
  closed_at = some now;
  closed_by = some actor;
  expected_amount = some expected;
  counted_amount = counted_amount;
  difference = difference_of counted_amount expected;
}

abbrev pub update_register :
    ℕ → (CashRegister → CashRegister) → List CashRegister → List CashRegister
update_register id f [] = []
update_register id f (r ∷ rs) = if r.id == id then f r ∷ rs else r ∷ update_register id f rs

abbrev pub save_register : ℕ → (CashRegister → CashRegister) → Orders.Db → Orders.Db
save_register id f s = record s { registers = update_register id f s.registers }

unfoldable pub close_register :
    Clock → ℕ → RoleName → List RegisterMovement → ℕ → Option ℕ → Tx Orders.Db CashRegister
close_register clock actor role ms register_id counted_amount = do
  r ← (λ s. or_raise (get_register register_id s) not_found s)
  raise_if (not (is_open r)) conflict
  assert_role_allowed role
  expected ← gets (λ s. (summary_of r ms s).expected_cash_balance)
  modify (save_register r.id (closed_row clock.now actor counted_amount expected))
  audit actor cash_register r.id update
  pure (closed_row clock.now actor counted_amount expected r)
