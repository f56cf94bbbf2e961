-- ===== src/Access/Members/Lookup.antt =====
-- What a look-up by id gives after a membership was written.
use nexasalon_api.Prelude.{
  ℕ, Bool, true, ◌≡◌, refl, sym, ap, subst, inl, inr, Option, none, some, List, [], ◌∷◌, find,
  filter, any, or_right, ◌==◌, ==_iff, Bool-cases, some-injective, find-test,
}
use nexasalon_api.Access.Records.{OrganizationMembership, Db}
use nexasalon_api.Access.Members.{get_membership, update_membership}

abbrev pub KeepsId : (OrganizationMembership → OrganizationMembership) → Type 0
KeepsId f = (m : OrganizationMembership) → (f m).id ≡ m.id

pub find-update_membership :
    (id : ℕ) (f : OrganizationMembership → OrganizationMembership)
    (ms : List OrganizationMembership) {m : OrganizationMembership}
    → KeepsId f
    → find (λ x. x.id == id) ms ≡ some m
    → find (λ x. x.id == id) (update_membership id f ms) ≡ some (f m)
find-update_membership id f [] k = λ h. cc
find-update_membership id f (x ∷ ms) k = elim (Bool-cases (x.id == id)) [
  | inl e ↦ rw (e, ap (λ n. n == id) (k x), e) (λ h. ap (λ y. some (f y)) (some-injective h))
  | inr e ↦ rw (e, e) (find-update_membership id f ms k)
]

-- The row that was read, under its own id.
pub get_membership-id :
    (id : ℕ) (s : Db) {m : OrganizationMembership} → get_membership id s ≡ some m → m.id ≡ id
get_membership-id id s {m} h = (==_iff m.id id).0 (find-test (λ x. x.id == id) s.memberships h)

pub get_membership_self :
    (id : ℕ) (s : Db) {m : OrganizationMembership}
    → get_membership id s ≡ some m
    → get_membership m.id s ≡ some m
get_membership_self id s {m} h =
    subst (λ x. get_membership x s ≡ some m) (sym (get_membership-id id s h)) h

pub any-find :
    (p q : OrganizationMembership → Bool) (ms : List OrganizationMembership)
    {m : OrganizationMembership}
    → find p ms ≡ some m
    → q m ≡ true
    → any q ms ≡ true
any-find p q [] = λ h k. cc
any-find p q (x ∷ ms) = elim (Bool-cases (p x)) [
  | inl e ↦ rw e (λ h k. rw (ap q (some-injective h), k) refl)
  | inr e ↦ rw e (λ h k. or_right (q x) (any q ms) (any-find p q ms h k))
]

abbrev pub head_of : List OrganizationMembership → Option OrganizationMembership
head_of [] = none
head_of (x ∷ xs) = some x

pub find-filter :
    (p : OrganizationMembership → Bool) (ms : List OrganizationMembership)
    → find p ms ≡ head_of (filter p ms)
find-filter p [] = refl
find-filter p (x ∷ ms) = elim (Bool-cases (p x)) [
  | inl e ↦ rw e refl
  | inr e ↦ rw e (find-filter p ms)
]

pub any-update_found :
    (id : ℕ) (f : OrganizationMembership → OrganizationMembership)
    (q : OrganizationMembership → Bool) (ms : List OrganizationMembership)
    {m : OrganizationMembership}
    → find (λ x. x.id == id) ms ≡ some m
    → q (f m) ≡ true
    → any q (update_membership id f ms) ≡ true
any-update_found id f q [] = λ h k. cc
any-update_found id f q (x ∷ ms) = elim (Bool-cases (x.id == id)) [
  | inl e ↦ rw e (λ h k. rw (ap (λ y. q (f y)) (some-injective h), k) refl)
  | inr e ↦ rw e (λ h k. or_right (q x) _ (any-update_found id f q ms h k))
]
