-- ===== src/Stock/Movements/Ledger.antt =====
-- The balances against the ledger of the movements (services/stock.py).
use nexasalon_api.Prelude.{
  ℕ, ◌+◌, ◌≡◌, refl, sym, subst, Bool, true, false, ◌&&◌, arith, sum_of, ◌==◌, if◌then◌else◌, ok,
}
use nexasalon_api.Stock.Records.{Stock, StockMovement, StockMovementDirection, into, out}
use nexasalon_api.Stock.Levels.{rounded, quantity_of}
use nexasalon_api.Stock.Levels.Laws.{quantity_of-set_quantity}
use nexasalon_api.Stock.Movements.{MovementArgs, is_short, new_quantity, create_movement}
use nexasalon_api.Stock.Movements.Created.{after, IsAllowed, create_movement-ok}

-- What a movement adds to, and takes from, the balance of the product in the branch.
abbrev pub added : ℕ → ℕ → StockMovement → ℕ
added p b m = elim m.direction [
  | into ↦ if m.product_id == p && m.branch_id == b then m.quantity else 0
  | out ↦ 0
]

abbrev pub taken : ℕ → ℕ → StockMovement → ℕ
taken p b m = elim m.direction [
  | into ↦ 0
  | out ↦ if m.product_id == p && m.branch_id == b then m.quantity else 0
]

-- For every product and branch, on hand plus all that went out is all that came in.
abbrev pub IsReconciled : Stock → Type 0
IsReconciled s =
    (p b : ℕ)
    → quantity_of p b s.levels + sum_of (taken p b) s.movements ≡ sum_of (added p b) s.movements

-- A quantity half a thousandth above a whole number of them leaves the branch: what the movement
-- says and what the balance loses are rounded apart.
abbrev pub is_tie : StockMovementDirection → ℕ → Bool
is_tie into rest = false
is_tie out rest = rest == 500

balance :
    (dir : StockMovementDirection) (here : Bool) (q x old other tin tout : ℕ)
    → is_tie dir x ≡ false
    → is_short dir old q x ≡ false
    → (here ≡ true → other ≡ old)
    → other + tout ≡ tin
    → (if here then new_quantity dir old q x else other)
        + ((elim dir [ into ↦ 0 | out ↦ (if here then rounded q x else 0) ]) + tout)
      ≡ (elim dir [ into ↦ (if here then rounded q x else 0) | out ↦ 0 ]) + tin
balance into true q x old other tin tout tie h same e = ground (arith, same refl)
balance into false q x old other tin tout tie h same e = omega arith
balance out true q x old other tin tout tie h same e = ground (arith, same refl)
balance out false q x old other tin tout tie h same e = omega arith

same_place :
    (p b p' b' : ℕ) (s : Stock)
    → (p == p' && b == b') ≡ true
    → quantity_of p' b' s.levels ≡ quantity_of p b s.levels
same_place p b p' b' s h = ground arith

pub after-IsReconciled :
    (actor : ℕ) (d : MovementArgs) (s : Stock)
    → is_tie d.direction d.rest ≡ false
    → IsAllowed d s
    → IsReconciled s
    → IsReconciled (after actor d s)
after-IsReconciled actor d s tie h r p b =
    rw
      (quantity_of-set_quantity d.product_id d.branch_id p b
        (new_quantity d.direction (quantity_of d.product_id d.branch_id s.levels) d.quantity d.rest)
        s.levels)
      (balance d.direction (d.product_id == p && d.branch_id == b) d.quantity d.rest
        (quantity_of d.product_id d.branch_id s.levels) (quantity_of p b s.levels)
        (sum_of (added p b) s.movements) (sum_of (taken p b) s.movements) tie h.covered
        (same_place d.product_id d.branch_id p b s) (r p b))

-- A movement keeps the balances and the ledger in agreement, unless it takes out a quantity that is
-- half a thousandth above a whole number of them: for every product in every branch, on hand plus
-- all that went out is all that came in.
pub create_movement-IsReconciled :
    (actor : ℕ) (d : MovementArgs) (s : Stock) {m : StockMovement} {s' : Stock}
    → is_tie d.direction d.rest ≡ false
    → create_movement actor d s ≡ ok (m, s')
    → IsReconciled s
    → IsReconciled s'
create_movement-IsReconciled actor d s tie h r =
    let (allowed, e, e') = create_movement-ok actor d s h in
    subst IsReconciled (sym e') (after-IsReconciled actor d s tie allowed r)
