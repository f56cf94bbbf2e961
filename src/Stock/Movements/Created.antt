-- ===== src/Stock/Movements/Created.antt =====
-- What one movement does: the inversion that the other proofs use, and when it is refused.
use nexasalon_api.Prelude.{
  ℕ, suc, ◌≡◌, ◌≢◌, refl, inl, inr, ◌∙◌, sym, ap, Bool, false, ◌&&◌, ◌||◌, Option, none, some, ◌∷◌,
  arith, ◌==◌, if◌then◌else◌, ok, find, Option-cases, validation, or_raise-then, or_raise-run,
  guarded-run, guarded-then, integrity, not_found, ok-injective, Tx, ◌>>=◌, ◌>>◌, >>=-eq-ok, subst,
}
use nexasalon_api.Stock.Records.{
  Stock, Product, StockMovement, StockMovementDirection, stock_movement, create,
}
use nexasalon_api.Stock.Levels.{rounded, quantity_of, lock_or_create, set_quantity}
use nexasalon_api.Stock.Levels.Laws.{quantity_of-set_quantity}
use nexasalon_api.Stock.Movements.{
  MovementArgs, is_short, new_quantity, movement_row, has_key, create_movement, get_product_or_404,
  get_branch_or_404, insert_movement, apply_delta, audit,
}

-- The stock after the movement.
abbrev pub after : ℕ → MovementArgs → Stock → Stock
after actor d s = record s {
  levels =
      set_quantity d.product_id d.branch_id
        (new_quantity d.direction (quantity_of d.product_id d.branch_id s.levels) d.quantity d.rest)
        (lock_or_create d.product_id d.branch_id s.levels);
  movements = movement_row actor d s.next_id ∷ s.movements;
  audit_logs =
      record {
        entity_type = stock_movement;
        entity_id = s.next_id;
        action = create;
        user_id = actor;
      }
      ∷ s.audit_logs;
  next_id = suc s.next_id;
}

-- What a movement needs.
pub record IsAllowed (d : MovementArgs) (s : Stock) : Type 0 where
  pub product_known : find (λ p. p.id == d.product_id) s.products ≢ none
  pub branch_known : find (λ b. b == d.branch_id) s.branches ≢ none
  pub covered :
      is_short d.direction (quantity_of d.product_id d.branch_id s.levels) d.quantity d.rest ≡ false
  pub positive : rounded d.quantity d.rest ≢ 0
  pub key_fresh : has_key d.idempotency_key s.movements ≡ false

pub get_product_or_404-then :
    {B : Type 0} (k : ℕ) (f : Product → Tx Stock B) (s : Stock) {r : B × Stock}
    → (get_product_or_404 k >>= f) s ≡ ok r
    → (p : Product) × (find (λ p. p.id == k) s.products ≡ some p) × (f p s ≡ ok r)
unfolding get_product_or_404
get_product_or_404-then k f s h = or_raise-then (find (λ p. p.id == k) s.products) not_found f s h

pub get_branch_or_404-then :
    {B : Type 0} (k : ℕ) (f : ℕ → Tx Stock B) (s : Stock) {r : B × Stock}
    → (get_branch_or_404 k >>= f) s ≡ ok r
    → (b : ℕ) × (find (λ b. b == k) s.branches ≡ some b) × (f b s ≡ ok r)
unfolding get_branch_or_404
get_branch_or_404-then k f s h = or_raise-then (find (λ b. b == k) s.branches) not_found f s h

abbrev with_delta : ℕ → ℕ → StockMovementDirection → ℕ → ℕ → Stock → Stock
with_delta p b dir q x s = record s {
  levels =
      set_quantity p b (new_quantity dir (quantity_of p b s.levels) q x)
        (lock_or_create p b s.levels);
}

abbrev with_movement : ℕ → MovementArgs → Stock → Stock
with_movement actor d s = record s {
  movements = movement_row actor d s.next_id ∷ s.movements;
  next_id = suc s.next_id;
}

some-ne-none : {A : Type 0} {o : Option A} {a : A} → o ≡ some a → o ≢ none
some-ne-none h e = cc

apply_delta-then :
    {B : Type 0} (p b : ℕ) (dir : StockMovementDirection) (q x : ℕ) (k : Tx Stock B) (s : Stock)
    {r : B × Stock}
    → (apply_delta p b dir q x >> k) s ≡ ok r
    → (is_short dir (quantity_of p b s.levels) q x ≡ false) × (k (with_delta p b dir q x s) ≡ ok r)
unfolding apply_delta
apply_delta-then p b dir q x k s h =
    guarded-then (is_short dir (quantity_of p b s.levels) q x) validation
      (tt, with_delta p b dir q x s) (λ _. k) s h

neither : (q : ℕ) (b : Bool) → (q == 0 || b) ≡ false → (q ≢ 0) × (b ≡ false)
neither q b h = ground arith

insert_movement-then :
    {B : Type 0} (actor : ℕ) (d : MovementArgs) (f : StockMovement → Tx Stock B) (s : Stock)
    {r : B × Stock}
    → (insert_movement actor d >>= f) s ≡ ok r
    → (rounded d.quantity d.rest ≢ 0)
      × (has_key d.idempotency_key s.movements ≡ false)
      × (f (movement_row actor d s.next_id) (with_movement actor d s) ≡ ok r)
unfolding insert_movement
insert_movement-then actor d f s h =
    let (fine, rest) =
      guarded-then (rounded d.quantity d.rest == 0 || has_key d.idempotency_key s.movements)
        integrity (movement_row actor d s.next_id, with_movement actor d s) f s h in
    let (positive, fresh) =
      neither (rounded d.quantity d.rest) (has_key d.idempotency_key s.movements) fine in
    (positive, fresh, rest)

pub create_movement-ok :
    (actor : ℕ) (d : MovementArgs) (s : Stock) {m : StockMovement} {s' : Stock}
    → create_movement actor d s ≡ ok (m, s')
    → IsAllowed d s × (m ≡ movement_row actor d s.next_id) × (s' ≡ after actor d s)
unfolding create_movement audit
create_movement-ok actor d s {m} {s'} h =
    let (p, hp, r1) = get_product_or_404-then d.product_id _ s h in
    let (b, hb, r2) = get_branch_or_404-then d.branch_id _ s r1 in
    let (enough, r3) =
      apply_delta-then d.product_id d.branch_id d.direction d.quantity d.rest _ s r2 in
    let (positive, fresh, r4) =
      insert_movement-then actor d _
        (with_delta d.product_id d.branch_id d.direction d.quantity d.rest s) r3 in
    let last = ok-injective r4 in
    (
      record {
        product_known = some-ne-none hp;
        branch_known = some-ne-none hb;
        covered = enough;
        positive = positive;
        key_fresh = fresh;
      },
      sym (ap (λ r. r.0) last),
      sym (ap (λ r. r.1) last),
    )

-- What comes after a movement starts from `after`.
pub create_movement-then :
    {B : Type 0} (actor : ℕ) (d : MovementArgs) (f : StockMovement → Tx Stock B) (s : Stock)
    {r : B × Stock}
    → (create_movement actor d >>= f) s ≡ ok r
    → IsAllowed d s × (f (movement_row actor d s.next_id) (after actor d s) ≡ ok r)
create_movement-then actor d f s {r} h =
    let (m, s1, e, k) = >>=-eq-ok (create_movement actor d) f s h in
    let (allowed, em, es) = create_movement-ok actor d s e in
    (allowed, subst (λ m'. f m' (after actor d s) ≡ ok r) em (subst (λ s'. f m s' ≡ ok r) es k))

pub create_movement-after :
    (actor : ℕ) (d : MovementArgs) (s : Stock)
    → IsAllowed d s
    → create_movement actor d s ≡ ok (movement_row actor d s.next_id, after actor d s)
unfolding create_movement get_product_or_404 get_branch_or_404 apply_delta insert_movement audit
create_movement-after actor d s h =
    elim (Option-cases (find (λ p. p.id == d.product_id) s.products)) [
      | inl missing ↦ absurd (h.product_known missing)
      | inr (p, ep) ↦ elim (Option-cases (find (λ b. b == d.branch_id) s.branches)) [
        | inl missing ↦ absurd (h.branch_known missing)
        | inr (b, eb) ↦
            or_raise-run not_found _ s ep
            ∙ or_raise-run not_found _ s eb
            ∙ guarded-run validation
                (tt, with_delta d.product_id d.branch_id d.direction d.quantity d.rest s) _ s
                h.covered
            ∙ guarded-run integrity
                (
                  movement_row actor d s.next_id,
                  with_movement actor d
                      (with_delta d.product_id d.branch_id d.direction d.quantity d.rest s),
                )
                _ (with_delta d.product_id d.branch_id d.direction d.quantity d.rest s)
                (accepted (rounded d.quantity d.rest) _ h.positive h.key_fresh)
      ]
    ]
  where
    accepted : (q : ℕ) (b : Bool) → q ≢ 0 → b ≡ false → (q == 0 || b) ≡ false
    accepted q b p f = ground arith

pub create_movement_iff :
    (actor : ℕ) (d : MovementArgs) (s : Stock)
    → ((IsAllowed d s)
        → (s' : Stock) × (create_movement actor d s ≡ ok (movement_row actor d s.next_id, s'))
          × (s'.movements ≡ movement_row actor d s.next_id ∷ s.movements)
          × ((p b : ℕ)
              → quantity_of p b s'.levels ≡ (
                  if d.product_id == p && d.branch_id == b
                  then new_quantity d.direction
                      (quantity_of d.product_id d.branch_id s.levels)
                      d.quantity
                      d.rest
                  else quantity_of p b s.levels)))
      × ((m : StockMovement) (s' : Stock) → create_movement actor d s ≡ ok (m, s') → IsAllowed d s)
create_movement_iff actor d s = (
  λ h. (
    after actor d s,
    create_movement-after actor d s h,
    refl,
    λ p b. quantity_of-set_quantity d.product_id d.branch_id p b _ s.levels,
  ),
  λ m s' h. (create_movement-ok actor d s h).0,
)
