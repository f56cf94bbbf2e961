-- ===== src/Settlements/Claims.antt =====
-- Claiming the rows of a query for a settlement, in services/commissions.py: which rows a settlement
-- lists afterwards.
use nexasalon_api.Prelude.{
  ℕ, ◌≡◌, refl, sym, ap, ◌∙◌, inl, inr, Bool, true, false, ◌||◌, List, [], ◌∷◌, ◌++◌, map, filter,
  any, Bool-cases, arith, ==_refl, ◌==◌, Option, none, some,
}
use nexasalon_api.Orders.Records.{Order, OrderItem}
use nexasalon_api.Orders.Lifecycle.{is_settled}
use nexasalon_api.Settlements.{claim, claim_items, link_item, select_items, items_for, is_of}

or_left-false : (a b : Bool) → (a || b) ≡ false → (a ≡ false) × (b ≡ false)
or_left-false a b h = (ground arith, ground arith)

pub unlinked :
    (m : ℕ) (o : Option ℕ) → elim o [ none ↦ false | some id ↦ true ] ≡ false → is_of m o ≡ false
unlinked m none h = refl
unlinked m (some id) h = cc

module _ {A : Type 0} where
  pub append-nil : (xs ys : List A) → xs ++ ys ≡ [] → (xs ≡ []) × (ys ≡ [])
  append-nil [] ys h = (refl, h)
  append-nil (x ∷ xs) ys h = cc

  filter-nil :
      (p : A → Bool) (x : A) (xs : List A)
      → filter p (x ∷ xs) ≡ []
      → (p x ≡ false) × (filter p xs ≡ [])
  filter-nil p x xs = elim (Bool-cases (p x)) [
    | inl e ↦ rw e (λ h. cc)
    | inr e ↦ rw e (λ h. (refl, h))
  ]

  module _ (q : A → Bool) (f : A → A) (of : A → Bool) where
    -- When no row was of the settlement, those of it are the rows claimed.
    pub filter-claim_new :
        {B : Type 0} (g : A → B) (xs : List A)
        → ((x : A) → of (f x) ≡ true)
        → ((x : A) → g (f x) ≡ g x)
        → filter of xs ≡ []
        → map g (filter of (claim q f xs)) ≡ map g (filter q xs)
    filter-claim_new g [] l k = λ h. refl
    filter-claim_new g (x ∷ xs) l k = λ h.
        let (e, n) = filter-nil of x xs h in
        elim (Bool-cases (q x)) [
          | inl a ↦ rw (a, l x, k x, filter-claim_new g xs l k n) refl
          | inr a ↦ rw (a, e, filter-claim_new g xs l k n) refl
        ]

    -- The rows of another settlement stay as they are, when none of them was claimed.
    pub filter-claim_other :
        (taken : A → Bool) (xs : List A)
        → ((x : A) → of (f x) ≡ false)
        → ((x : A) → taken x ≡ false → of x ≡ false)
        → any taken (filter q xs) ≡ false
        → filter of (claim q f xs) ≡ filter of xs
    filter-claim_other taken [] l k = λ h. refl
    filter-claim_other taken (x ∷ xs) l k = elim (Bool-cases (q x)) [
      | inl a ↦ rw a (λ h.
          let (e, n) = or_left-false (taken x) (any taken (filter q xs)) h in
          rw (l x, k x e, filter-claim_other taken xs l k n) refl)
      | inr a ↦ rw a (λ h. rw (filter-claim_other taken xs l k h) refl)
    ]

    -- What was claimed is not found again.
    pub filter-claim_again :
        (xs : List A) → ((x : A) → q (f x) ≡ false) → filter q (claim q f xs) ≡ []
    filter-claim_again [] l = refl
    filter-claim_again (x ∷ xs) l = elim (Bool-cases (q x)) [
      | inl a ↦ rw (a, l x, filter-claim_again xs l) refl
      | inr a ↦ rw (a, a, filter-claim_again xs l) refl
    ]

    pub any-filter_none :
        (taken : A → Bool) (xs : List A)
        → ((x : A) → q x ≡ true → taken x ≡ false)
        → any taken (filter q xs) ≡ false
    any-filter_none taken [] l = refl
    any-filter_none taken (x ∷ xs) l = elim (Bool-cases (q x)) [
      | inl a ↦ rw (a, l x a, any-filter_none taken xs l) refl
      | inr a ↦ rw (a, any-filter_none taken xs l) refl
    ]

pub map-append :
    {A B : Type 0} (g : A → B) (xs ys : List A) → map g (xs ++ ys) ≡ map g xs ++ map g ys
map-append g [] ys = refl
map-append g (x ∷ xs) ys = ap (λ zs. g x ∷ zs) (map-append g xs ys)

-- The same for the items, which stand in their orders.
module _ (p : Order → Bool) (q : OrderItem → Bool) (n : ℕ) where
  pub items_for-claim_new :
      {B : Type 0} (g : OrderItem → B) (os : List Order)
      → ((i : OrderItem) → g (link_item n i) ≡ g i)
      → items_for n os ≡ []
      → map g (items_for n (claim_items p q n os)) ≡ map g (select_items p q os)
  items_for-claim_new g [] k = λ h. refl
  items_for-claim_new g (o ∷ os) k = λ h.
      let (e, r) =
        append-nil (filter (λ i. is_of n i.commission_settlement_id) o.items) (items_for n os) h in
      let rest = items_for-claim_new g os k r in
      elim (Bool-cases (p o)) [
        | inl a ↦ rw a (
            map-append g
              (filter (λ i. is_of n i.commission_settlement_id) (claim q (link_item n) o.items))
              (items_for n (claim_items p q n os))
            ∙ ap (λ zs. zs ++ map g (items_for n (claim_items p q n os)))
                (filter-claim_new q (link_item n) (λ i. is_of n i.commission_settlement_id) g
                  o.items (λ i. ==_refl n) k e)
            ∙ ap (λ zs. map g (filter q o.items) ++ zs) rest
            ∙ sym (map-append g (filter q o.items) (select_items p q os)))
        | inr a ↦ rw (a, e) rest
      ]

  pub items_for-claim_other :
      (m : ℕ) (os : List Order)
      → (n == m) ≡ false
      → ((i : OrderItem) → q i ≡ true → is_settled i ≡ false)
      → items_for m (claim_items p q n os) ≡ items_for m os
  items_for-claim_other m [] d k = refl
  items_for-claim_other m (o ∷ os) d k =
      let rest = items_for-claim_other m os d k in
      elim (Bool-cases (p o)) [
        | inl a ↦
            rw
              (
                a,
                rest,
                filter-claim_other q (link_item n) (λ i. is_of m i.commission_settlement_id)
                    is_settled o.items (λ i. d) (unsettled m)
                    (any-filter_none q (link_item n) (λ i. true) is_settled o.items k),
              )
              refl
        | inr a ↦ rw (a, rest) refl
      ]
    where
      unsettled :
          (m : ℕ) (i : OrderItem)
          → is_settled i ≡ false
          → is_of m i.commission_settlement_id ≡ false
      unsettled m i = unlinked m i.commission_settlement_id

  pub select_items-claim_again :
      (os : List Order)
      → ((i : OrderItem) → q (link_item n i) ≡ false)
      → ((o : Order) (is : List OrderItem) → p (record o { items = is }) ≡ p o)
      → select_items p q (claim_items p q n os) ≡ []
  select_items-claim_again [] l s = refl
  select_items-claim_again (o ∷ os) l s = elim (Bool-cases (p o)) [
    | inl a ↦
        rw
          (
            a,
            s o (claim q (link_item n) o.items),
            a,
            filter-claim_again q (link_item n) (λ i. true) o.items l,
            select_items-claim_again os l s,
          )
          refl
    | inr a ↦ rw (a, a, select_items-claim_again os l s) refl
  ]
