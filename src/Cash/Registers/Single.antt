-- ===== src/Cash/Registers/Single.antt =====
-- Sequences of openings and closings of the registers of an organization, of
-- services/cash_register.py.
use nexasalon_api.Prelude.{
  ℕ, ◌+◌, ◌≤◌, ◌≡◌, refl, sym, ap, ◌∙◌, subst, ◌⊎◌, inl, inr, Bool, true, false, not, ◌&&◌, Option,
  List, [], ◌∷◌, ◌++◌, find, sum_of, sum_of-append, ◌==◌, if◌then◌else◌, Bool-cases, ==_iff, Result,
  ok, err, not_found, conflict, forbidden, ok-injective, or_raise-then, raise_if-then, arith,
}
use nexasalon_api.Payments.Cents.{ℤ}
use nexasalon_api.Orders.Records as Orders
use nexasalon_api.Orders.Records.{CashRegister, EffectiveConfig, Clock}
use nexasalon_api.Orders.Registers.{
  is_open, is_some, get_open_for_branch, stale_open_register, get_register,
}
use nexasalon_api.Cash.Registers.{
  RegisterMovement, RoleName, role_allowed, new_register, closed_row, update_register,
  open_register, close_register, summary_of,
}

abbrev pub is_open_in : ℕ → CashRegister → Bool
is_open_in branch_id r = r.branch_id == branch_id && is_open r

abbrev pub one : Bool → ℕ
one b = if b then 1 else 0

-- How many registers of the branch are open.
abbrev pub open_in : ℕ → List CashRegister → ℕ
open_in branch_id rs = sum_of (λ r. one (is_open_in branch_id r)) rs

abbrev pub IsSingle : Orders.Db → Type 0
IsSingle s = (branch_id : ℕ) → open_in branch_id s.registers ≤ 1

required : (a b : Bool) → a ≡ true → (a && b) ≡ false → b ≡ false
required a b h k = ground arith

open_in-none :
    (branch_id : ℕ) (rs : List CashRegister)
    → is_some (find (is_open_in branch_id) rs) ≡ false
    → open_in branch_id rs ≡ 0
open_in-none branch_id [] = λ h. refl
open_in-none branch_id (r ∷ rs) = elim (Bool-cases (is_open_in branch_id r)) [
  | inl e ↦ rw e (λ h. cc)
  | inr e ↦ rw e (λ h. omega (arith, open_in-none branch_id rs h))
]

-- A register that is new, or as good as new.
room : (a b : ℕ) (o : Bool) (n : ℕ) → n ≤ 1 → (a ≡ b → n ≡ 0) → n + (one (a == b && o) + 0) ≤ 1
room a b o n h k = elim (Bool-cases (a == b)) [
  | inl e ↦ rw e (first (k ((==_iff a b).0 e)) (Bool-cases o))
  | inr e ↦ rw e (omega arith)
]
  where
    first : n ≡ 0 → (o ≡ true) ⊎ (o ≡ false) → n + (one (true && o) + 0) ≤ 1
    first z (inl e) = rw e (omega arith)
    first z (inr e) = rw e (omega arith)

closed_counts : (a b : Bool) → one (a && false) ≤ one (a && b)
closed_counts true b = ground arith
closed_counts false b = ground arith

-- A register opened in a branch without one.
open_in-opened :
    (branch_id : ℕ) (new : CashRegister) (rs : List CashRegister)
    → open_in new.branch_id rs ≡ 0
    → ((b : ℕ) → open_in b rs ≤ 1)
    → open_in branch_id (rs ++ new ∷ []) ≤ 1
open_in-opened branch_id new rs z h =
    subst (λ n. n ≤ 1) (sym (sum_of-append (λ r. one (is_open_in branch_id r)) rs (new ∷ [])))
      (room new.branch_id branch_id (is_open new) (open_in branch_id rs) (h branch_id)
        (λ e. subst (λ b. open_in b rs ≡ 0) e z))

-- Closing a register opens none.
open_in-closed :
    (branch_id id now actor : ℕ) (counted_amount : Option ℕ) (expected : ℤ) (rs : List CashRegister)
    → open_in branch_id (update_register id (closed_row now actor counted_amount expected) rs)
      ≤ open_in branch_id rs
open_in-closed branch_id id now actor counted_amount expected [] = omega arith
open_in-closed branch_id id now actor counted_amount expected (r ∷ rs) =
    elim (Bool-cases (r.id == id)) [
      | inl e ↦ rw e (omega (arith, closed_counts (r.branch_id == branch_id) (is_open r)))
      | inr e ↦
          rw e (omega (arith, open_in-closed branch_id id now actor counted_amount expected rs))
    ]

module _ (clock : Clock) (actor : ℕ) (role : RoleName) where
  open_register-IsSingle :
      (branch_id initial_amount : ℕ) (s : Orders.Db) (r : ℕ × Orders.Db)
      → s.config.single_open_register_per_branch ≡ true
      → IsSingle s
      → open_register clock actor role branch_id initial_amount s ≡ ok r
      → IsSingle r.1 × (r.1.config ≡ s.config)
  unfolding open_register get_open_for_branch stale_open_register
  open_register-IsSingle branch_id initial_amount s r single h e =
      let (_, e1) = raise_if-then (not (role_allowed s.config role)) forbidden _ s e in
      let (_, e2) =
        raise_if-then
          (s.config.require_close_previous_before_opening_today
            && is_some (stale_open_register clock branch_id s.registers))
          conflict _ s e1 in
      let (none_open, e3) =
        raise_if-then
          (s.config.single_open_register_per_branch
            && is_some (get_open_for_branch branch_id s.registers))
          conflict _ s e2 in
      subst (λ x. IsSingle x.1 × (x.1.config ≡ s.config)) (ok-injective e3)
        (
          λ b.
              open_in-opened b (new_register s.next_id branch_id clock.now actor initial_amount)
                s.registers
                (open_in-none branch_id s.registers (
                  required s.config.single_open_register_per_branch
                    (is_some (get_open_for_branch branch_id s.registers)) single none_open))
                h,
          refl,
        )

  close_register-IsSingle :
      (ms : List RegisterMovement) (register_id : ℕ) (counted_amount : Option ℕ) (s : Orders.Db)
      (r : CashRegister × Orders.Db)
      → IsSingle s
      → close_register clock actor role ms register_id counted_amount s ≡ ok r
      → IsSingle r.1 × (r.1.config ≡ s.config)
  unfolding close_register
  close_register-IsSingle ms register_id counted_amount s r h e =
      let (row, _, e1) = or_raise-then (get_register register_id s) not_found _ s e in
      let (_, e2) = raise_if-then (not (is_open row)) conflict _ s e1 in
      let (_, e3) = raise_if-then (not (role_allowed s.config role)) forbidden _ s e2 in
      subst (λ x. IsSingle x.1 × (x.1.config ≡ s.config)) (ok-injective e3)
        (
          λ b. omega (
            arith,
            h b,
            open_in-closed b row.id clock.now actor counted_amount
                (summary_of row ms s).expected_cash_balance s.registers,
          ),
          refl,
        )

-- A call on the registers.
pub data Call : Type 0 where
  opening : Clock → ℕ → RoleName → ℕ → ℕ → Call
  closing : Clock → ℕ → RoleName → List RegisterMovement → ℕ → Option ℕ → Call

abbrev pub after : {A : Type 0} → Orders.Db → Result (A × Orders.Db) → Orders.Db
after s (ok r) = r.1
after s (err e) = s

-- A call that raises leaves the database as it was.
unfoldable pub state_after : Call → Orders.Db → Orders.Db
state_after (opening clock actor role branch_id initial_amount) s =
    after s (open_register clock actor role branch_id initial_amount s)
state_after (closing clock actor role ms register_id counted_amount) s =
    after s (close_register clock actor role ms register_id counted_amount s)

abbrev pub run_calls : List Call → Orders.Db → Orders.Db
run_calls [] s = s
run_calls (c ∷ cs) s = run_calls cs (state_after c s)

abbrev Kept : Orders.Db → Orders.Db → Type 0
Kept s s' = IsSingle s' × (s'.config ≡ s.config)

after-Kept :
    {A : Type 0} (s : Orders.Db) (x : Result (A × Orders.Db))
    → IsSingle s
    → ((r : A × Orders.Db) → x ≡ ok r → Kept s r.1)
    → Kept s (after s x)
after-Kept s (ok r) h k = k r refl
after-Kept s (err e) h k = (h, refl)

state_after-Kept :
    (c : Call) (s : Orders.Db)
    → s.config.single_open_register_per_branch ≡ true
    → IsSingle s
    → Kept s (state_after c s)
unfolding state_after
state_after-Kept (opening clock actor role branch_id initial_amount) s single h =
    after-Kept s (open_register clock actor role branch_id initial_amount s) h
      (λ r. open_register-IsSingle clock actor role branch_id initial_amount s r single h)
state_after-Kept (closing clock actor role ms register_id counted_amount) s single h =
    after-Kept s (close_register clock actor role ms register_id counted_amount s) h
      (λ r. close_register-IsSingle clock actor role ms register_id counted_amount s r h)

-- Where the configuration asks for a single open register, no sequence of openings and closings,
-- whoever makes them and whichever of them are refused, leaves two open registers in a branch, when
-- it starts from registers without two.
pub run_calls-IsSingle :
    (cs : List Call) (s : Orders.Db)
    → s.config.single_open_register_per_branch ≡ true
    → IsSingle s
    → IsSingle (run_calls cs s)
run_calls-IsSingle [] s single h = h
run_calls-IsSingle (c ∷ cs) s single h =
    let (kept, same) = state_after-Kept c s single h in
    run_calls-IsSingle cs (state_after c s)
      (ap (λ x. x.single_open_register_per_branch) same ∙ single) kept
