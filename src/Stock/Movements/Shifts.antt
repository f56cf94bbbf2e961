-- ===== src/Stock/Movements/Shifts.antt =====
-- By how much the balances of one branch move.
use nexasalon_api.Prelude.{
  ℕ, ◌+◌, ◌≡◌, refl, ap, ◌∙◌, true, false, ◌&&◌, arith, ◌==◌, if◌then◌else◌, ok,
}
use nexasalon_api.Stock.Records.{Stock, StockMovement, StockMovementDirection, into, out}
use nexasalon_api.Stock.Levels.{quantity_of}
use nexasalon_api.Stock.Levels.Laws.{quantity_of-set_quantity}
use nexasalon_api.Stock.Movements.{MovementArgs, is_short, new_quantity, create_movement}
use nexasalon_api.Stock.Movements.Created.{create_movement-ok}
use nexasalon_api.Stock.Movements.Ledger.{is_tie, IsReconciled, create_movement-IsReconciled}

-- Every balance of the branch grew by `more` and shrank by `less`; the balances of the other
-- branches and the counts are as before, and the ledger still agrees with the balances if it did.
abbrev pub Shifted : ℕ → (ℕ → ℕ) → (ℕ → ℕ) → Stock → Stock → Type 0
Shifted branch less more s s' =
    ((p : ℕ) → quantity_of p branch s'.levels + less p ≡ quantity_of p branch s.levels + more p)
    × ((p b : ℕ) → (branch == b) ≡ false → quantity_of p b s'.levels ≡ quantity_of p b s.levels)
    × (s'.counts ≡ s.counts)
    × (IsReconciled s → IsReconciled s')

pub Shifted_refl : (branch : ℕ) (s : Stock) → Shifted branch (λ p. 0) (λ p. 0) s s
Shifted_refl branch s = (λ p. refl, λ p b n. refl, refl, λ r. r)

pub Shifted_trans :
    (branch : ℕ) (f g f' g' : ℕ → ℕ) (s s1 s2 : Stock)
    → Shifted branch f g s s1
    → Shifted branch f' g' s1 s2
    → Shifted branch (λ p. f p + f' p) (λ p. g p + g' p) s s2
Shifted_trans branch f g f' g' s s1 s2 h k =
    (λ p. omega (arith, h.0 p, k.0 p), λ p b n. k.1 p b n ∙ h.1 p b n, k.2 ∙ h.2, λ r. k.3 (h.3 r))

-- The same movement told with other amounts.
pub Shifted_as :
    (branch : ℕ) (f g f' g' : ℕ → ℕ) (s s' : Stock)
    → ((p : ℕ) → f' p + g p ≡ f p + g' p)
    → Shifted branch f g s s'
    → Shifted branch f' g' s s'
Shifted_as branch f g f' g' s s' e h = (λ p. omega (arith, h.0 p, e p), h.1, h.2, h.3)

abbrev pub removed : StockMovementDirection → ℕ → ℕ
removed into q = 0
removed out q = q

abbrev pub brought : StockMovementDirection → ℕ → ℕ
brought into q = q
brought out q = 0

moved :
    (dir : StockMovementDirection) (product p b q old here level : ℕ)
    → is_short dir old q 0 ≡ false
    → ((product == p) ≡ true → here ≡ old)
    → level ≡ (if product == p && b == b then new_quantity dir old q 0 else here)
    → level + (if product == p then removed dir q else 0)
      ≡ here + (if product == p then brought dir q else 0)
moved into product p b q old here level h same e = ground (arith, same)
moved out product p b q old here level h same e = ground (arith, same)

elsewhere :
    (product p branch b x here level : ℕ)
    → (branch == b) ≡ false
    → level ≡ (if product == p && branch == b then x else here)
    → level ≡ here
elsewhere product p branch b x here level h e = ground arith

same_level :
    (product p branch : ℕ) (s : Stock)
    → (product == p) ≡ true
    → quantity_of p branch s.levels ≡ quantity_of product branch s.levels
same_level product p branch s h = ground arith

pub create_movement-Shifted :
    (actor : ℕ) (d : MovementArgs) (s : Stock) {m : StockMovement} {s' : Stock}
    → d.rest ≡ 0
    → create_movement actor d s ≡ ok (m, s')
    → Shifted d.branch_id
        (λ p. if d.product_id == p then removed d.direction d.quantity else 0)
        (λ p. if d.product_id == p then brought d.direction d.quantity else 0)
        s
        s'
create_movement-Shifted actor d s {m} {s'} whole h =
    let (allowed, _, e) = create_movement-ok actor d s h in
    let keeps = create_movement-IsReconciled actor d s (rw whole (untied d.direction)) h in
    (
      λ p.
          moved d.direction d.product_id p d.branch_id d.quantity
            (quantity_of d.product_id d.branch_id s.levels) _ _ (rw whole at allowed.covered)
            (same_level d.product_id p d.branch_id s)
            (ap (λ x. quantity_of p d.branch_id x.levels) e
              ∙ quantity_of-set_quantity d.product_id d.branch_id p d.branch_id _ s.levels
              ∙ ap
                  (λ x.
                    if d.product_id == p && d.branch_id == d.branch_id
                    then new_quantity d.direction (quantity_of d.product_id d.branch_id s.levels)
                        d.quantity x
                    else quantity_of p d.branch_id s.levels)
                  whole),
      λ p b n. elsewhere d.product_id p d.branch_id b _ _ _ n (
          ap (λ x. quantity_of p b x.levels) e
          ∙ quantity_of-set_quantity d.product_id d.branch_id p b _ s.levels),
      ap (λ x. x.counts) e,
      keeps,
    )
  where
    untied : (dir : StockMovementDirection) → is_tie dir 0 ≡ false
    untied into = refl
    untied out = refl
