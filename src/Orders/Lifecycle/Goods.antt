-- ===== src/Orders/Lifecycle/Goods.antt =====
-- The stock that closing takes for an order's product items, and that reopening gives back.
use nexasalon_api.Prelude.{
  ℕ, ◌+◌, ◌≡◌, refl, subst, ◌∙◌, true, Option, none, some, List, [], ◌∷◌, arith, sum_of, find, ◌==◌,
  if◌then◌else◌, ok, err, Result, Tx, collect, pure, ◌>>=◌, >>=-eq-ok, ok-injective,
}
use nexasalon_api.Stock.Records.{Stock, into}
use nexasalon_api.Stock.Movements.{
  record_sale_movement, record_internal_use_movement, record_consumption_correction,
}
use nexasalon_api.Stock.Movements.Shifts.{
  Shifted, Shifted_refl, Shifted_trans, Shifted_as, create_movement-Shifted,
}
use nexasalon_api.Orders.Records.{
  Db, Order, OrderProductItem, OrderProductItemKind, sale, consumption,
}
use nexasalon_api.Orders.Registers.{is_some}
use nexasalon_api.Orders.Store.{in_stock, with_stock}
use nexasalon_api.Orders.Lifecycle.{
  out_movement, cost_of, write_off_by, write_off, give_back_by, give_back,
}

-- How much of a product an item is about, still has to take from the stock, and took from it.
abbrev pub line : ℕ → OrderProductItem → ℕ
line p i = if i.product_id == p then i.quantity else 0

abbrev pub taken_by : Option ℕ → ℕ → OrderProductItem → ℕ
taken_by none p i = line p i
taken_by (some _) p i = 0

abbrev pub given_by : Option ℕ → ℕ → OrderProductItem → ℕ
given_by none p i = 0
given_by (some _) p i = line p i

abbrev pub to_take : ℕ → OrderProductItem → ℕ
to_take p i = taken_by i.stock_movement_id p i

abbrev pub to_return : ℕ → OrderProductItem → ℕ
to_return p i = given_by i.stock_movement_id p i

-- Only the stock, the ids and the audit rows may have changed.
abbrev pub Frame : Db → Db → Type 0
Frame s s' = (s'.orders ≡ s.orders) × (s'.appointments ≡ s.appointments)

-- What one of the two loops did: to the stock, and to its items.
abbrev pub Moves : ℕ → (ℕ → ℕ) → (ℕ → ℕ) → Db → Db → Type 0
Moves branch less more s s' = Frame s s' × Shifted branch less more s.stock s'.stock

invert :
    {A B : Type 0} (x : Result (A × Stock)) (f : A → Tx Db B) (s : Db) (m : Tx Stock A) {r : B × Db}
    → m s.stock ≡ x
    → ((λ s'. with_stock s x) >>= f) s ≡ ok r
    → (a : A) × (st : Stock) × (m s.stock ≡ ok (a, st)) × (f a (record s { stock = st }) ≡ ok r)
invert (ok (a, st)) f s m e h = (a, st, e, h)
invert (err x) f s m e h = cc

pub in_stock-then :
    {A B : Type 0} (m : Tx Stock A) (f : A → Tx Db B) (s : Db) {r : B × Db}
    → (in_stock m >>= f) s ≡ ok r
    → (a : A) × (st : Stock) × (m s.stock ≡ ok (a, st)) × (f a (record s { stock = st }) ≡ ok r)
in_stock-then m f s h = invert (m s.stock) f s m refl h

out_movement-Shifted :
    (kind : OrderProductItemKind) (actor product branch q order : ℕ) (cost : Option ℕ) (s : Stock)
    {m : _} {s' : Stock}
    → out_movement kind actor product branch q order cost s ≡ ok (m, s')
    → Shifted branch (λ p. if product == p then q else 0) (λ p. if product == p then 0 else 0) s s'
unfolding record_sale_movement record_internal_use_movement
out_movement-Shifted sale actor product branch q order cost s h =
    create_movement-Shifted actor _ s refl h
out_movement-Shifted consumption actor product branch q order cost s h =
    create_movement-Shifted actor _ s refl h

taken :
    (product p q : ℕ)
    → (if product == p then q else 0) + (if product == p then 0 else 0)
      ≡ (if product == p then q else 0) + 0
taken product p q = ground arith

given :
    (product p q : ℕ)
    → 0 + (if product == p then q else 0)
      ≡ (if product == p then 0 else 0) + (if product == p then q else 0)
given product p q = ground arith

-- The item after the first loop stands for goods that were taken, and is otherwise as before.
abbrev pub IsTaken : OrderProductItem → OrderProductItem → Type 0
IsTaken i i' = (is_some i'.stock_movement_id ≡ true) × ((p : ℕ) → line p i' ≡ line p i)

present : {x : Option ℕ} {n : ℕ} → x ≡ some n → is_some x ≡ true
present h = rw h refl

write_off-Moves :
    (x : Option ℕ) (actor : ℕ) (o : Order) (i : OrderProductItem) (s : Db)
    {r : OrderProductItem × Db}
    → i.stock_movement_id ≡ x
    → write_off_by x actor o i s ≡ ok r
    → IsTaken i r.0 × Moves o.branch_id (λ p. taken_by x p i) (λ p. 0) s r.1
unfolding write_off_by
write_off-Moves (some n) actor o i s e h =
    subst (λ r. IsTaken i r.0 × Moves o.branch_id (λ p. 0) (λ p. 0) s r.1) (ok-injective h)
      ((present e, λ p. refl), ((refl, refl), Shifted_refl o.branch_id s.stock))
write_off-Moves none actor o i s e h =
    let cost = cost_of (find (λ p. p.id == i.product_id) s.stock.products) in
    let (m, st, done, last) =
      in_stock-then (out_movement i.item_type actor i.product_id o.branch_id i.quantity o.id cost) _
        s h in
    subst (λ r. IsTaken i r.0 × Moves o.branch_id (λ p. line p i) (λ p. 0) s r.1)
      (ok-injective last)
      (
        (refl, λ p. refl),
        (
          (refl, refl),
          Shifted_as o.branch_id _ _ (λ p. line p i) (λ p. 0) s.stock st
              (λ p. taken i.product_id p i.quantity)
              (out_movement-Shifted i.item_type actor i.product_id o.branch_id i.quantity o.id cost
                s.stock done),
        ),
      )

-- The item after the second loop stands for no goods, and is otherwise as before.
abbrev pub IsReturned : OrderProductItem → OrderProductItem → Type 0
IsReturned i i' = (i'.stock_movement_id ≡ none) × ((p : ℕ) → line p i' ≡ line p i)

give_back-Moves :
    (x : Option ℕ) (uuid4 : ℕ → ℕ) (actor : ℕ) (o : Order) (i : OrderProductItem) (s : Db)
    {r : OrderProductItem × Db}
    → i.stock_movement_id ≡ x
    → give_back_by x uuid4 actor o i s ≡ ok r
    → IsReturned i r.0 × Moves o.branch_id (λ p. 0) (λ p. given_by x p i) s r.1
unfolding give_back_by record_consumption_correction
give_back-Moves none uuid4 actor o i s e h =
    subst (λ r. IsReturned i r.0 × Moves o.branch_id (λ p. 0) (λ p. 0) s r.1) (ok-injective h)
      ((e, λ p. refl), ((refl, refl), Shifted_refl o.branch_id s.stock))
give_back-Moves (some n) uuid4 actor o i s e h =
    let (m, st, done, last) =
      in_stock-then
        (record_consumption_correction actor i.product_id o.branch_id o.id i.quantity into
          (uuid4 s.stock.next_id))
        _ s h in
    subst (λ r. IsReturned i r.0 × Moves o.branch_id (λ p. 0) (λ p. line p i) s r.1)
      (ok-injective last)
      (
        (refl, λ p. refl),
        (
          (refl, refl),
          Shifted_as o.branch_id _ _ (λ p. 0) (λ p. line p i) s.stock st
              (λ p. given i.product_id p i.quantity)
              (create_movement-Shifted actor _ s.stock refl done),
        ),
      )

-- What a loop made of the items: of each one, and of the amounts.
abbrev pub Pointwise :
    (OrderProductItem → OrderProductItem → Type 0)
    → List OrderProductItem
    → List OrderProductItem
    → Type 0
Pointwise R [] [] = Unit
Pointwise R [] (_ ∷ _) = ⊥
Pointwise R (_ ∷ _) [] = ⊥
Pointwise R (x ∷ xs) (y ∷ ys) = R x y × Pointwise R xs ys

Moves-trans :
    (branch : ℕ) (f g f' g' : ℕ → ℕ) (s s1 s2 : Db)
    → Moves branch f g s s1
    → Moves branch f' g' s1 s2
    → Moves branch (λ p. f p + f' p) (λ p. g p + g' p) s s2
Moves-trans branch f g f' g' s s1 s2 h k = (
  (k.0.0 ∙ h.0.0, k.0.1 ∙ h.0.1),
  Shifted_trans branch f g f' g' s.stock s1.stock s2.stock h.1 k.1,
)

-- The loop over a body that keeps `R` between each item and its result.
loop-Moves :
    (R : OrderProductItem → OrderProductItem → Type 0) (branch : ℕ) (f g : ℕ → OrderProductItem → ℕ)
    (body : OrderProductItem → Tx Db OrderProductItem)
    → ((i : OrderProductItem) (s : Db) (r : OrderProductItem × Db)
        → body i s ≡ ok r
        → R i r.0 × Moves branch (λ p. f p i) (λ p. g p i) s r.1)
    → (is : List OrderProductItem) (s : Db) {r : List OrderProductItem × Db}
    → collect body is s ≡ ok r
    → Pointwise R is r.0 × Moves branch (λ p. sum_of (f p) is) (λ p. sum_of (g p) is) s r.1
loop-Moves R branch f g body step [] s h =
    subst (λ r. Pointwise R [] r.0 × Moves branch (λ p. 0) (λ p. 0) s r.1) (ok-injective h)
      (tt, ((refl, refl), Shifted_refl branch s.stock))
loop-Moves R branch f g body step (i ∷ is) s h =
    let (i', s1, e1, h1) = >>=-eq-ok (body i) _ s h in
    let (is', s2, e2, h2) = >>=-eq-ok (collect body is) (λ ys. pure (i' ∷ ys)) s1 h1 in
    let (one, first) = step i s (i', s1) e1 in
    let (others, next) = loop-Moves R branch f g body step is s1 e2 in
    subst
      (λ r.
        Pointwise R (i ∷ is) r.0
        × Moves branch (λ p. sum_of (f p) (i ∷ is)) (λ p. sum_of (g p) (i ∷ is)) s r.1)
      (ok-injective h2)
      (
        (one, others),
        Moves-trans branch (λ p. f p i) (λ p. g p i) (λ p. sum_of (f p) is) (λ p. sum_of (g p) is) s
            s1 s2 first next,
      )

pub zeros : (is : List OrderProductItem) → sum_of (λ i. 0) is ≡ 0
zeros [] = refl
zeros (i ∷ is) = omega (arith, zeros is)

pub write_offs-Moves :
    (actor : ℕ) (o : Order) (is : List OrderProductItem) (s : Db) {r : List OrderProductItem × Db}
    → collect (write_off actor o) is s ≡ ok r
    → Pointwise IsTaken is r.0
      × Moves o.branch_id (λ p. sum_of (to_take p) is) (λ p. sum_of (λ i. 0) is) s r.1
write_offs-Moves actor o is s h =
    loop-Moves IsTaken o.branch_id to_take (λ p i. 0) (write_off actor o)
      (λ i s r e. write_off-Moves i.stock_movement_id actor o i s refl e) is s h

pub give_backs-Moves :
    (uuid4 : ℕ → ℕ) (actor : ℕ) (o : Order) (is : List OrderProductItem) (s : Db)
    {r : List OrderProductItem × Db}
    → collect (give_back uuid4 actor o) is s ≡ ok r
    → Pointwise IsReturned is r.0
      × Moves o.branch_id (λ p. sum_of (λ i. 0) is) (λ p. sum_of (to_return p) is) s r.1
give_backs-Moves uuid4 actor o is s h =
    loop-Moves IsReturned o.branch_id (λ p i. 0) to_return (give_back uuid4 actor o)
      (λ i s r e. give_back-Moves i.stock_movement_id uuid4 actor o i s refl e) is s h
