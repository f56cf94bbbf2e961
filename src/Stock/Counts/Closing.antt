-- ===== src/Stock/Counts/Closing.antt =====
-- What closing a count does to the balances.
use nexasalon_api.Prelude.{
  not-false, ℕ, ◌+◌, ◌-◌, ◌≡◌, refl, inl, inr, err, sym, ap, subst, true, false, not, Option, none,
  some, List, [], ◌∷◌, arith, find, sum_of, ltb, ◌==◌, if◌then◌else◌, ok, Bool-cases, Option-cases,
  or_raise-run, not_found, conflict, validation, each, pure, or_raise-then, raise_if-then,
  ok-injective, >>=-eq-ok, ◌>>=◌,
}
use nexasalon_api.Stock.Records.{
  Stock, StockMovementDirection, into, out, InventoryCount, closed, InventoryCountItem,
  StockMovementReason,
}
use nexasalon_api.Stock.Levels.{quantity_of}
use nexasalon_api.Stock.Movements.{MovementArgs, create_movement, record_system_movement, audit}
use nexasalon_api.Stock.Movements.Shifts.{
  Shifted, Shifted_trans, Shifted_as, removed, brought, create_movement-Shifted,
}
use nexasalon_api.Stock.Movements.Ledger.{IsReconciled}
use nexasalon_api.Stock.Counts.{
  is_open, list_items, has_uncounted, adjust_with, adjust, mark_closed, get_count_or_404,
  close_count,
}

-- What the items say of one product: how much the system had, and how much was counted.
abbrev pub system_at : ℕ → InventoryCountItem → ℕ
system_at p i = if i.product_id == p then i.system_quantity else 0

abbrev pub counted_or : ℕ → Option ℕ → ℕ
counted_or d none = d
counted_or d (some n) = n

abbrev pub counted_at : ℕ → InventoryCountItem → ℕ
counted_at p i = if i.product_id == p then counted_or i.system_quantity i.counted_quantity else 0

abbrev row : ℕ → InventoryCount → StockMovementDirection → ℕ → MovementArgs
row product count dir q = record {
  product_id = product;
  branch_id = count.branch_id;
  direction = dir;
  reason = StockMovementReason.inventory_count;
  quantity = q;
  rest = 0;
  unit_cost = none;
  order_id = none;
  transfer_id = none;
  inventory_count_id = some count.id;
  idempotency_key = none;
}

abbrev system_of : ℕ → ℕ → ℕ → ℕ
system_of product n p = if product == p then n else 0

-- Going up from `system` to `counted` is bringing the difference, and going down is removing it.
amounts :
    (dir : StockMovementDirection) (product p system counted : ℕ)
    → ltb system counted ≡ (elim dir [ into ↦ true | out ↦ false ])
    → (if product == p then system else 0)
        + (if product == p
            then brought dir (elim dir [ into ↦ counted - system | out ↦ system - counted ])
            else 0)
      ≡ (if product == p
          then removed dir (elim dir [ into ↦ counted - system | out ↦ system - counted ])
          else 0)
        + (if product == p then counted else 0)
amounts into product p system counted h = ground arith
amounts out product p system counted h = ground arith

adjusted-Shifted :
    (dir : StockMovementDirection) (actor : ℕ) (count : InventoryCount) (product system counted : ℕ)
    (s : Stock) {r : Unit {0} × Stock}
    → ltb system counted ≡ (elim dir [ into ↦ true | out ↦ false ])
    → (create_movement actor
            (row product count dir (elim dir [ into ↦ counted - system | out ↦ system - counted ]))
          >>= λ _. pure tt)
        s
      ≡ ok r
    → Shifted count.branch_id (system_of product system) (system_of product counted) s r.1
adjusted-Shifted dir actor count product system counted s {r} e h =
    let d = row product count dir (elim dir [ into ↦ counted - system | out ↦ system - counted ]) in
    let (m, s1, done, last) = >>=-eq-ok (create_movement actor d) (λ _. pure tt) s h in
    subst
      (λ s'. Shifted count.branch_id (system_of product system) (system_of product counted) s s')
      (ap (λ x. x.1) (ok-injective last))
      (Shifted_as count.branch_id _ _ (system_of product system) (system_of product counted) s s1
        (λ p. amounts dir product p system counted e) (create_movement-Shifted actor d s refl done))

nothing-Shifted :
    (branch : ℕ) (f g : ℕ → ℕ) (s : Stock) {r : Unit {0} × Stock}
    → ((p : ℕ) → f p ≡ g p)
    → pure {S = Stock} tt s ≡ ok r
    → Shifted branch f g s r.1
nothing-Shifted branch f g s e h =
    subst (λ s'. Shifted branch f g s s') (ap (λ x. x.1) (ok-injective h))
      (λ p. ap (λ n. quantity_of p branch s.levels + n) (e p), λ p b n. refl, refl, λ k. k)

equal :
    (product system counted p : ℕ)
    → (counted == system) ≡ true
    → (if product == p then system else 0) ≡ (if product == p then counted else 0)
equal product system counted p h = ground arith

adjust_with-Shifted :
    (actor : ℕ) (count : InventoryCount) (product system counted : ℕ) (s : Stock)
    {r : Unit {0} × Stock}
    → adjust_with actor count product system counted s ≡ ok r
    → Shifted count.branch_id (system_of product system) (system_of product counted) s r.1
unfolding adjust_with record_system_movement
adjust_with-Shifted actor count product system counted s {r} =
    elim (Bool-cases (counted == system)) [
      | inl agrees ↦ rw agrees (λ h.
          nothing-Shifted count.branch_id _ _ s (λ p. equal product system counted p agrees) h)
      | inr differs ↦ elim (Bool-cases (ltb system counted)) [
        | inl more ↦
            rw (differs, more)
              (λ h. adjusted-Shifted into actor count product system counted s more h)
        | inr less ↦
            rw (differs, less)
              (λ h. adjusted-Shifted out actor count product system counted s less h)
      ]
    ]

adjust-Shifted :
    (actor : ℕ) (count : InventoryCount) (i : InventoryCountItem) (s : Stock) {r : Unit {0} × Stock}
    → adjust actor count i s ≡ ok r
    → Shifted count.branch_id (λ p. system_at p i) (λ p. counted_at p i) s r.1
unfolding adjust
adjust-Shifted actor count i s = elim (Option-cases i.counted_quantity) [
  | inl e ↦ rw e (λ h. nothing-Shifted count.branch_id _ _ s (λ p. refl) h)
  | inr (n, e) ↦ rw e (λ h. adjust_with-Shifted actor count i.product_id i.system_quantity n s h)
]

each-Shifted :
    (actor : ℕ) (count : InventoryCount) (is : List InventoryCountItem) (s : Stock)
    {r : Unit {0} × Stock}
    → each (adjust actor count) is s ≡ ok r
    → Shifted count.branch_id (λ p. sum_of (system_at p) is) (λ p. sum_of (counted_at p) is) s r.1
each-Shifted actor count [] s h = nothing-Shifted count.branch_id _ _ s (λ p. refl) h
each-Shifted actor count (i ∷ is) s {r} h =
    let (u, s1, e, k) = >>=-eq-ok (adjust actor count i) (λ _. each (adjust actor count) is) s h in
    Shifted_trans count.branch_id (λ p. system_at p i) (λ p. counted_at p i) _ _ s s1 r.1
      (adjust-Shifted actor count i s e) (each-Shifted actor count is s1 k)

abbrev closed_row : InventoryCount → ℕ → ℕ → InventoryCount
closed_row c actor now = record c { status = closed; closed_at = some now; closed_by = some actor }

find-mark_closed :
    (id actor now : ℕ) (cs : List InventoryCount) {c : InventoryCount}
    → find (λ x. x.id == id) cs ≡ some c
    → find (λ x. x.id == id) (mark_closed id actor now cs) ≡ some (closed_row c actor now)
unfolding mark_closed
find-mark_closed id actor now [] {c} = λ h. cc
find-mark_closed id actor now (x ∷ xs) {c} = elim (Bool-cases (x.id == id)) [
  | inl e ↦
      rw e (λ h. rw e (ap (λ o. elim o [ none ↦ none | some y ↦ some (closed_row y actor now) ]) h))
  | inr e ↦ rw (e, e) (λ h. find-mark_closed id actor now xs h)
]

conflict_when_closed :
    (actor id now : ℕ) (s : Stock) (c : InventoryCount) (a t : ℕ)
    → find (λ x. x.id == id) s.counts ≡ some (closed_row c a t)
    → close_count actor id now s ≡ err conflict
unfolding close_count get_count_or_404
conflict_when_closed actor id now s c a t h = or_raise-run not_found _ s h

-- A count that is closed was open with every item counted. Then, product by product, the balance
-- in its branch has moved by what was counted less what the system had when the count was opened;
-- no other branch changed, the balances still agree with the movements if they did before, and
-- closing the same count once more is a conflict.
pub close_count-adjusts :
    (actor id now : ℕ) (s : Stock) {c : InventoryCount} {s' : Stock}
    → close_count actor id now s ≡ ok (c, s')
    → (found : InventoryCount) × (find (λ x. x.id == id) s.counts ≡ some found)
      × (is_open found ≡ true)
      × (has_uncounted (list_items id s.count_items) ≡ false)
      × ((p : ℕ)
          → quantity_of p c.branch_id s'.levels + sum_of (system_at p) (list_items id s.count_items)
            ≡ quantity_of p c.branch_id s.levels
              + sum_of (counted_at p) (list_items id s.count_items))
      × ((p b : ℕ)
          → (c.branch_id == b) ≡ false
          → quantity_of p b s'.levels ≡ quantity_of p b s.levels)
      × (IsReconciled s → IsReconciled s')
      × ((actor' later : ℕ) → close_count actor' id later s' ≡ err conflict)
unfolding close_count get_count_or_404 audit
close_count-adjusts actor id now s {c} {s'} h =
    let (count, found, r1) = or_raise-then (find (λ x. x.id == id) s.counts) not_found _ s h in
    let (was, r2) = raise_if-then (not (is_open count)) conflict _ s r1 in
    let (counted, r3) =
      raise_if-then (has_uncounted (list_items id s.count_items)) validation _ s r2 in
    let (u, s1, e, r4) =
      >>=-eq-ok (each (adjust actor count) (list_items id s.count_items)) _ s r3 in
    let (levels, others, counts, ledger) =
      each-Shifted actor count (list_items id s.count_items) s e in
    subst (λ r. Adjusts r.0 r.1) (ok-injective r4)
      (
        count,
        found,
        not-false (is_open count) was,
        counted,
        levels,
        others,
        ledger,
        λ actor' later. conflict_when_closed actor' id later _ count actor now (
            find-mark_closed id actor now s1.counts
              (subst (λ cs. find (λ x. x.id == id) cs ≡ some count) (sym counts) found)),
      )
  where
    Adjusts : InventoryCount → Stock → Type 0
    Adjusts c s' =
        (found : InventoryCount) × (find (λ x. x.id == id) s.counts ≡ some found)
        × (is_open found ≡ true)
        × (has_uncounted (list_items id s.count_items) ≡ false)
        × ((p : ℕ)
            → quantity_of p c.branch_id s'.levels
                + sum_of (system_at p) (list_items id s.count_items)
              ≡ quantity_of p c.branch_id s.levels
                + sum_of (counted_at p) (list_items id s.count_items))
        × ((p b : ℕ)
            → (c.branch_id == b) ≡ false
            → quantity_of p b s'.levels ≡ quantity_of p b s.levels)
        × (IsReconciled s → IsReconciled s')
        × ((actor' later : ℕ) → close_count actor' id later s' ≡ err conflict)
