-- ===== src/Orders/Lifecycle/Undone.antt =====
-- Reopening: what it refuses and reverts, and that it gives back what closing took.
use nexasalon_api.Prelude.{
  ℕ, ◌+◌, ◌≡◌, refl, sym, ap, subst, ◌∙◌, inl, inr, true, false, Option, none, some, List, [], ◌∷◌,
  map, filter, arith, sum_of, find, All, ◌==◌, ok, some-injective, Bool-cases, ==_iff,
}
use nexasalon_api.Stock.Levels.{quantity_of}
use nexasalon_api.Orders.Records.{Db, Order, OrderProductItem, opened, OrderClose, Clock, Payment}
use nexasalon_api.Orders.Store.{is_closed}
use nexasalon_api.Orders.Registers.{is_some}
use nexasalon_api.Orders.Lifecycle.{close_order, reopen_order, reversed, is_active, any_settled}
use nexasalon_api.Orders.Lifecycle.Goods.{
  to_take, to_return, line, given_by, IsTaken, Pointwise, zeros,
}
use nexasalon_api.Orders.Lifecycle.Closing.{IsClosing, close_order-ok}
use nexasalon_api.Orders.Lifecycle.Reopening.{RegisterOpen, IsReopening, reopen_order-ok}
use nexasalon_api.Orders.Lifecycle.Properties.{stored}

none_active :
    (actor now : ℕ) (ps : List Payment)
    → All (λ p. is_active p ≡ false) (map (reversed actor now) ps)
none_active actor now [] = tt
none_active actor now (p ∷ ps) = (
  elim (Bool-cases (is_active p)) [ inl e ↦ rw e refl | inr e ↦ rw e e ],
  none_active actor now ps,
)

abbrev pub amount_by_id : Payment → ℕ × ℕ
amount_by_id p = (p.id, p.amount)

same_amounts :
    (actor now : ℕ) (ps : List Payment)
    → map amount_by_id (map (reversed actor now) ps) ≡ map amount_by_id ps
same_amounts actor now [] = refl
same_amounts actor now (p ∷ ps) = elim (Bool-cases (is_active p)) [
  | inl e ↦ rw e (ap (λ xs. amount_by_id p ∷ xs) (same_amounts actor now ps))
  | inr e ↦ rw e (ap (λ xs. amount_by_id p ∷ xs) (same_amounts actor now ps))
]

-- An order that is reopened was closed, the cash register of each of its active payments is still
-- open, and no commission of its items is settled. Afterwards it is stored as open, none of its
-- payments is active, and each keeps its amount.
pub reopen_order-reverts :
    (uuid4 : ℕ → ℕ) (clock : Clock) (actor id : ℕ) (s : Db) {o : Order} {s' : Db}
    → reopen_order uuid4 clock actor id s ≡ ok (o, s')
    → (found : Order) × (find (λ x. x.id == id) s.orders ≡ some found)
      × (is_closed found ≡ true)
      × All (RegisterOpen s) (filter is_active found.payments)
      × (any_settled found.items ≡ false)
      × (find (λ x. x.id == id) s'.orders ≡ some o)
      × (o.status ≡ opened)
      × All (λ p. is_active p ≡ false) o.payments
      × (map amount_by_id o.payments ≡ map amount_by_id found.payments)
reopen_order-reverts uuid4 clock actor id s {o} {s'} h =
    let (found, there, c) = reopen_order-ok uuid4 clock actor id s h in
    (
      found,
      there,
      c.was_closed,
      c.registers,
      c.unsettled,
      subst (λ xs. find (λ x. x.id == id) xs ≡ some o) (sym c.orders)
          (stored id o found s.orders there (ap (λ x. x.id) c.written)),
      ap (λ x. x.status) c.written,
      subst (All (λ p. is_active p ≡ false)) (sym (ap (λ x. x.payments) c.written))
          (none_active actor clock.now found.payments),
      ap (λ x. map amount_by_id x.payments) c.written ∙ same_amounts actor clock.now found.payments,
    )

pending :
    (p : ℕ) (is : List OrderProductItem)
    → All (λ i. i.stock_movement_id ≡ none) is
    → sum_of (to_take p) is ≡ sum_of (line p) is
pending p [] h = refl
pending p (i ∷ is) h = rw (h.0) (ap (λ n. line p i + n) (pending p is h.1))

returned :
    (p : ℕ) (i : OrderProductItem) (x : Option ℕ) → is_some x ≡ true → given_by x p i ≡ line p i
returned p i none h = cc
returned p i (some n) h = refl

taken :
    (p : ℕ) (is is' : List OrderProductItem)
    → Pointwise IsTaken is is'
    → sum_of (to_return p) is' ≡ sum_of (line p) is
taken p [] [] h = refl
taken p [] (i' ∷ is') h = absurd h
taken p (i ∷ is) [] h = absurd h
taken p (i ∷ is) (i' ∷ is') h =
    omega (arith, returned p i' i'.stock_movement_id h.0.0, h.0.1 p, taken p is is' h.1)

restored :
    (clock : Clock) (actor : ℕ) (body : OrderClose) (clock' : Clock) (actor' : ℕ)
    (found again : Order) (s : Db) (o : Order) (s' : Db) (o' : Order) (s'' : Db)
    → IsClosing clock actor body found s o s'
    → again ≡ o
    → IsReopening clock' actor' again s' o' s''
    → All (λ i. i.stock_movement_id ≡ none) found.product_items
    → (p b : ℕ) → quantity_of p b s''.stock.levels ≡ quantity_of p b s.stock.levels
restored clock actor body clock' actor' found again s o s' o' s'' c same d fresh p b =
    let d' = subst (λ f. IsReopening clock' actor' f s' o' s'') (same ∙ c.written) d in
    elim (Bool-cases (found.branch_id == b)) [
      | inl here ↦
          subst (λ b. quantity_of p b s''.stock.levels ≡ quantity_of p b s.stock.levels)
            ((==_iff found.branch_id b).0 here)
            (omega (
              arith,
              c.stock.0 p,
              d'.stock.0 p,
              pending p found.product_items fresh,
              taken p found.product_items c.product_items c.goods,
              zeros found.product_items,
              zeros c.product_items,
            ))
      | inr other ↦ d'.stock.1 p b other ∙ c.stock.1 p b other
    ]

-- Closing an order of which nothing was taken from the stock yet, and reopening it, leaves every
-- balance of every product in every branch as it was.
pub close-reopen :
    (uuid4 : ℕ → ℕ) (clock clock' : Clock) (actor actor' id : ℕ) (body : OrderClose) (found : Order)
    (s : Db) {o o' : Order} {s' s'' : Db}
    → find (λ x. x.id == id) s.orders ≡ some found
    → All (λ i. i.stock_movement_id ≡ none) found.product_items
    → close_order clock actor id body s ≡ ok (o, s')
    → reopen_order uuid4 clock' actor' id s' ≡ ok (o', s'')
    → (p b : ℕ) → quantity_of p b s''.stock.levels ≡ quantity_of p b s.stock.levels
close-reopen uuid4 clock clock' actor actor' id body found s {o} {o'} {s'} {s''} there fresh h k p
      b =
    let (f1, t1, c) = close_order-ok clock actor id body s h in
    let (f2, t2, d) = reopen_order-ok uuid4 clock' actor' id s' k in
    let same1 : f1 ≡ found = some-injective (sym t1 ∙ there) in
    let here : find (λ x. x.id == id) s'.orders ≡ some o =
      subst (λ xs. find (λ x. x.id == id) xs ≡ some o) (sym c.orders)
        (stored id o f1 s.orders t1 (ap (λ x. x.id) c.written)) in
    let same2 : f2 ≡ o = some-injective (sym t2 ∙ here) in
    restored clock actor body clock' actor' f1 f2 s o s' o' s'' c same2 d
      (subst (λ f. All (λ i. i.stock_movement_id ≡ none) f.product_items) (sym same1) fresh) p b
