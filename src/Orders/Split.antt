-- ===== src/Orders/Split.antt =====
-- `close_orders_consolidated` of services/orders.py: how the payments of the request are split
-- among the orders. Amounts are in thousandths of a cent (`Totals.cents`). The inner `while` takes
-- at most one turn per entry of the queue, as a turn either uses an entry up or covers the order,
-- so it is written by recursion on the queue.
use nexasalon_api.Prelude.{
  All, leb, ◌/◌, ◌%◌, ℕ, ◌+◌, ◌-◌, ◌≤◌, ◌≡◌, ◌≢◌, refl, ap, ◌∙◌, inl, inr, Bool, List, [], ◌∷◌, map,
  arith, min, sum_of, ltb, ◌==◌, if◌then◌else◌, Bool-cases, Result, ok, err, validation,
}
use nexasalon_api.Orders.Records.{PaymentCreate}
use nexasalon_api.Orders.Totals.{cents}

-- An entry of `queue`, and also a payment that is created: `source` says the method, the card and
-- the register.
pub record Entry : Type 0 where
  pub source : PaymentCreate
  pub amount : ℕ

abbrev prepend : Entry → Result (List Entry × List Entry) → Result (List Entry × List Entry)
prepend e (ok (slices, queue)) = ok (e ∷ slices, queue)
prepend e (err x) = err x

-- What `Payment.amount`, of two decimals, keeps of an amount: the nearest cent, and the larger one in
-- the middle.
unfoldable pub to_cents : ℕ → ℕ
to_cents n = if leb 500 (n % 1000) then cents (n / 1000 + 1) else cents (n / 1000)

-- The `while remaining > 0` of one order: the payments created for it, and the queue that is left.
unfoldable pub serve : List Entry → ℕ → Result (List Entry × List Entry)
serve [] remaining = if remaining == 0 then ok ([], []) else err validation
serve (e ∷ queue) remaining =
    let take = min e.amount remaining in
    let rest = serve queue (remaining - take) in
    if remaining == 0
    then ok ([], e ∷ queue)
    else if e.amount - take == 0
    then prepend (record e { amount = to_cents take }) rest
    else ok
        (record e { amount = to_cents take } ∷ [], record e { amount = e.amount - take } ∷ queue)

abbrev also :
    List Entry → Result (List (List Entry) × List Entry) → Result (List (List Entry) × List Entry)
also slices (ok (others, queue)) = ok (slices ∷ others, queue)
also slices (err x) = err x

abbrev next :
    Result (List Entry × List Entry)
    → (List Entry → Result (List (List Entry) × List Entry))
    → Result (List (List Entry) × List Entry)
next (ok (slices, rest)) k = also slices (k rest)
next (err x) k = err x

-- The loop over the orders, by what each has to receive.
unfoldable pub distribute : List ℕ → List Entry → Result (List (List Entry) × List Entry)
distribute [] queue = ok ([], queue)
distribute (total ∷ totals) queue = next (serve queue total) (λ rest. distribute totals rest)

abbrev pub entry_of : PaymentCreate → Entry
entry_of p = record { source = p; amount = cents p.amount }

abbrev payments_of : Result (List (List Entry) × List Entry) → Result (List (List Entry))
payments_of (ok (parts, queue)) = ok parts
payments_of (err x) = err x

-- The check of the sums, then the distribution.
unfoldable pub split_payments : List ℕ → List PaymentCreate → Result (List (List Entry))
split_payments totals payments =
    let grand_total = sum_of (λ t. t) totals in
    let paid_total = sum_of (λ p. cents p.amount) payments in
    if ltb grand_total paid_total
    then err validation
    else if ltb paid_total grand_total
    then err validation
    else payments_of (distribute totals (map entry_of payments))

-- What the entries of some kind amount to together.
abbrev pub amount_of : (PaymentCreate → Bool) → List Entry → ℕ
amount_of f es = sum_of (λ e. if f e.source then e.amount else 0) es

abbrev pub whole : List Entry → ℕ
whole es = sum_of (λ e. e.amount) es

-- An entry of whole cents.
abbrev pub IsCents : ℕ → Type 0
IsCents n = (k : ℕ) × (n ≡ cents k)

abbrev IsWhole : Entry → Type 0
IsWhole e = IsCents e.amount

to_cents_whole : (n : ℕ) → IsCents n → to_cents n ≡ n
unfolding to_cents
to_cents_whole n (k, h) = ground arith

IsCents-min : (a b : ℕ) → IsCents a → IsCents b → IsCents (min a b)
IsCents-min a b (k, h) (j, g) = (min k j, omega arith)

IsCents-minus : (a b : ℕ) → IsCents a → IsCents b → IsCents (a - b)
IsCents-minus a b (k, h) (j, g) = (k - j, omega arith)

abbrev Served : List Entry → ℕ → Result (List Entry × List Entry) → Type 0
Served queue remaining result =
    (slices rest : List Entry) × (result ≡ ok (slices, rest))
    × All IsWhole rest
    × (whole slices ≡ remaining)
    × (whole slices + whole rest ≡ whole queue)
    × ((f : PaymentCreate → Bool) → amount_of f slices + amount_of f rest ≡ amount_of f queue)

whole_part :
    (b : Bool) (a t x y z : ℕ)
    → t ≡ a
    → x + y ≡ z
    → ((if b then t else 0) + x) + y ≡ (if b then a else 0) + z
whole_part b a t x y z h e = ground arith

cut_part :
    (b : Bool) (a t z : ℕ)
    → t ≤ a
    → ((if b then t else 0) + 0) + ((if b then a - t else 0) + z) ≡ (if b then a else 0) + z
cut_part b a t z h = ground arith

serve-Served :
    (queue : List Entry) (remaining : ℕ)
    → All IsWhole queue
    → IsCents remaining
    → remaining ≤ whole queue
    → Served queue remaining (serve queue remaining)
unfolding serve
serve-Served [] remaining es c h = elim (Bool-cases (remaining == 0)) [
  | inl e ↦ rw e ([], [], refl, tt, omega (arith, h), refl, λ f. refl)
  | inr e ↦ absurd (ground (arith, e, h))
]
serve-Served (e ∷ queue) remaining (w, es) c h =
    let part = IsCents-min e.amount remaining w c in
    elim (Bool-cases (remaining == 0)) [
      | inl z ↦
          rw z ([], e ∷ queue, refl, (w, es), ground (arith, z), omega arith, λ f. omega arith)
      | inr z ↦ elim (Bool-cases (e.amount - min e.amount remaining == 0)) [
        | inl spent ↦
            let take_all : min e.amount remaining ≡ e.amount = ground (arith, spent) in
            let (slices, rest, q, fine, covered, kept, by) =
              serve-Served queue (remaining - min e.amount remaining) es
                (IsCents-minus remaining (min e.amount remaining) c part) (omega (arith, h)) in
            rw (z, spent, q, to_cents_whole (min e.amount remaining) part)
              (
                record e { amount = min e.amount remaining } ∷ slices,
                rest,
                refl,
                fine,
                omega (arith, covered),
                omega (arith, kept, take_all),
                λ f.
                    whole_part (f e.source) e.amount (min e.amount remaining) (amount_of f slices)
                      (amount_of f rest) (amount_of f queue) take_all (by f),
              )
        | inr left ↦
            let take_rest : min e.amount remaining ≡ remaining = ground (arith, left) in
            rw (z, left, to_cents_whole (min e.amount remaining) part)
              (
                record e { amount = min e.amount remaining } ∷ [],
                record e { amount = e.amount - min e.amount remaining } ∷ queue,
                refl,
                (IsCents-minus e.amount (min e.amount remaining) w part, es),
                omega (arith, take_rest),
                omega arith,
                λ f.
                    cut_part (f e.source) e.amount (min e.amount remaining) (amount_of f queue)
                      (omega arith),
              )
      ]
    ]

-- Every order's payments are together what it has to receive.
abbrev pub Covers : List ℕ → List (List Entry) → Type 0
Covers [] [] = Unit
Covers [] (_ ∷ _) = ⊥
Covers (_ ∷ _) [] = ⊥
Covers (total ∷ totals) (part ∷ parts) = (whole part ≡ total) × Covers totals parts

abbrev Distributed : List ℕ → List Entry → Result (List (List Entry) × List Entry) → Type 0
Distributed totals queue result =
    (parts : List (List Entry)) × (rest : List Entry) × (result ≡ ok (parts, rest))
    × Covers totals parts
    × (whole rest + sum_of (λ t. t) totals ≡ whole queue)
    × ((f : PaymentCreate → Bool)
        → sum_of (amount_of f) parts + amount_of f rest ≡ amount_of f queue)

distribute-Distributed :
    (totals : List ℕ) (queue : List Entry)
    → All IsWhole queue
    → All IsCents totals
    → sum_of (λ t. t) totals ≤ whole queue
    → Distributed totals queue (distribute totals queue)
unfolding distribute
distribute-Distributed [] queue es ts h = ([], queue, refl, tt, omega arith, λ f. omega arith)
distribute-Distributed (total ∷ totals) queue es (t, ts) h =
    let (slices, rest, q, fine, covered, kept, by) =
      serve-Served queue total es t (omega (arith, h)) in
    let (parts, last, q', covers, kept', by') =
      distribute-Distributed totals rest fine ts (omega (arith, h, covered, kept)) in
    rw (q, q')
      (
        slices ∷ parts,
        last,
        refl,
        (covered, covers),
        omega (arith, covered, kept, kept'),
        λ f. omega (arith, by f, by' f),
      )

entries_whole :
    (ps : List PaymentCreate) → whole (map entry_of ps) ≡ sum_of (λ p. cents p.amount) ps
entries_whole [] = refl
entries_whole (p ∷ ps) = ap (λ n. cents p.amount + n) (entries_whole ps)

entries-IsWhole : (ps : List PaymentCreate) → All IsWhole (map entry_of ps)
entries-IsWhole [] = tt
entries-IsWhole (p ∷ ps) = ((p.amount, refl), entries-IsWhole ps)

entries_amount :
    (f : PaymentCreate → Bool) (ps : List PaymentCreate)
    → amount_of f (map entry_of ps) ≡ sum_of (λ p. if f p then cents p.amount else 0) ps
entries_amount f [] = refl
entries_amount f (p ∷ ps) = ap (λ n. (if f p then cents p.amount else 0) + n) (entries_amount f ps)

nothing_of : (f : PaymentCreate → Bool) (es : List Entry) → whole es ≡ 0 → amount_of f es ≡ 0
nothing_of f [] h = refl
nothing_of f (e ∷ es) h = ground (arith, nothing_of f es)

checked_equal :
    (a b : ℕ) (x : Result (List (List Entry)))
    → b ≡ a
    → (if ltb a b then err validation else if ltb b a then err validation else x) ≡ x
checked_equal a b x h = ground arith

checked_different :
    (a b : ℕ) (x : Result (List (List Entry)))
    → b ≢ a
    → (if ltb a b then err validation else if ltb b a then err validation else x) ≡ err validation
checked_different a b x h = ground arith

-- Payments whose sum is not what the orders have to receive together are refused. When it is, and
-- each order has to receive a whole number of cents, the distribution succeeds: each order gets
-- payments that cover it exactly, and for every kind of payment (a method, a register, a card) the
-- payments stored amount to what the request brought.
pub split_payments-exact :
    (totals : List ℕ) (payments : List PaymentCreate)
    → (sum_of (λ p. cents p.amount) payments ≢ sum_of (λ t. t) totals
        → split_payments totals payments ≡ err validation)
      × (All IsCents totals
          → sum_of (λ p. cents p.amount) payments ≡ sum_of (λ t. t) totals
          → (parts : List (List Entry)) × (split_payments totals payments ≡ ok parts)
            × Covers totals parts
            × ((f : PaymentCreate → Bool)
                → sum_of (amount_of f) parts
                  ≡ sum_of (λ p. if f p then cents p.amount else 0) payments))
unfolding split_payments
split_payments-exact totals payments = (
  checked_different _ _ _,
  λ ts h.
      let (parts, rest, q, covers, kept, by) =
        distribute-Distributed totals (map entry_of payments) (entries-IsWhole payments) ts
          (omega (arith, h, entries_whole payments)) in
      (
        parts,
        checked_equal _ _ _ h ∙ ap payments_of q,
        covers,
        λ f. omega (
          arith,
          by f,
          entries_amount f payments,
          nothing_of f rest (omega (arith, kept, h, entries_whole payments)),
        ),
      ),
)
