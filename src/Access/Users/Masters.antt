-- ===== src/Access/Users/Masters.antt =====
-- The guard of `set_membership_status` of services/user_management.py.
use nexasalon_api.Prelude.{
  ℕ, Bool, true, false, not, ◌&&◌, ◌≡◌, refl, sym, subst, inl, inr, some, List, [], ◌∷◌, find,
  filter, ◌==◌, Bool-cases, ok, not_found, some-injective, any, or_right, and_right, not_both,
  or_imp, ok-injective, or_raise-then, arith, raise_if-then, Tx, ◌>>◌, validation,
}
use nexasalon_api.Access.Records.{MembershipStatus, OrganizationMembership, Db}
use nexasalon_api.Access.Members.{
  get_membership, is_active_member, is_active_status, update_membership,
}
use nexasalon_api.Access.Members.Lookup.{get_membership_self}
use nexasalon_api.Access.Permissions.{
  compute_effective_permissions, list_overrides, list_role_permission_keys,
}
use nexasalon_api.Access.Users.{
  in_org-some, is_master, is_empty, remaining_masters, with_status, guard_master,
  set_membership_status, in_org,
}

-- An active membership of the organization that may manage it.
abbrev pub is_active_master : ℕ → Db → OrganizationMembership → Bool
is_active_master organization_id s m =
    (m.organization_id == organization_id && is_active_member m) && is_master s m

abbrev pub HasMaster : ℕ → Db → Type 0
HasMaster organization_id s = any (is_active_master organization_id s) s.memberships ≡ true

module _ (p : OrganizationMembership → Bool) (f : OrganizationMembership → OrganizationMembership)
    (id : ℕ) where
  any-update_keeping :
      (ms : List OrganizationMembership)
      → ((m : OrganizationMembership) → p m ≡ true → p (f m) ≡ true)
      → any p ms ≡ true
      → any p (update_membership id f ms) ≡ true
  any-update_keeping [] k h = h
  any-update_keeping (m ∷ ms) k h = elim (Bool-cases (m.id == id)) [
    | inl e ↦ rw e (or_imp (p m) (p (f m)) (any p ms) (any p ms) h (k m) (λ r. r))
    | inr e ↦ rw e (
        or_imp (p m) (p m) (any p ms) (any p (update_membership id f ms)) h (λ r. r)
          (any-update_keeping ms k))
  ]

  any_others :
      (ms : List OrganizationMembership)
      → any (λ m. not (m.id == id) && p m) ms ≡ true
      → any p ms ≡ true
  any_others [] h = h
  any_others (m ∷ ms) h =
      or_imp (not (m.id == id) && p m) (p m) (any (λ m. not (m.id == id) && p m) ms) (any p ms) h
        (and_right (not (m.id == id)) (p m)) (any_others ms)

  any-update_others :
      (ms : List OrganizationMembership)
      → any (λ m. not (m.id == id) && p m) ms ≡ true
      → any p (update_membership id f ms) ≡ true
  any-update_others [] = λ h. h
  any-update_others (m ∷ ms) = elim (Bool-cases (m.id == id)) [
    | inl e ↦ rw e (λ h. or_right (p (f m)) (any p ms) (any_others ms h))
    | inr e ↦ rw e (λ h.
        or_imp (p m) (p m) (any (λ m. not (m.id == id) && p m) ms)
          (any p (update_membership id f ms)) h (λ r. r) (any-update_others ms))
  ]

  any-update_without :
      (ms : List OrganizationMembership) {m : OrganizationMembership}
      → find (λ x. x.id == id) ms ≡ some m
      → p m ≡ false
      → any p ms ≡ true
      → any p (update_membership id f ms) ≡ true
  any-update_without [] = λ g h k. k
  any-update_without (x ∷ ms) {m} = elim (Bool-cases (x.id == id)) [
    | inl e ↦ rw e (λ g h k. or_right (p (f x)) (any p ms) (
        or_imp (p x) false (any p ms) (any p ms) k
          (λ r. not_both (p x) r (subst (λ y. p y ≡ false) (sym (some-injective g)) h)) (λ r. r)))
    | inr e ↦ rw e (λ g h k.
        or_imp (p x) (p x) (any p ms) (any p (update_membership id f ms)) k (λ r. r)
          (any-update_without ms g h))
  ]

-- What the guard counts is another active master.
any-remaining_masters :
    (organization_id id : ℕ) (s : Db) (ms : List OrganizationMembership)
    → is_empty (
        filter
          (λ m. not (m.id == id) && is_master s m)
          (filter (λ m. m.organization_id == organization_id && is_active_member m) ms))
      ≡ false
    → any (λ m. not (m.id == id) && is_active_master organization_id s m) ms ≡ true
any-remaining_masters organization_id id s [] = λ h. cc
any-remaining_masters organization_id id s (m ∷ ms) =
    elim (Bool-cases (m.organization_id == organization_id && is_active_member m)) [
      | inr e ↦ rw e (λ h.
          or_right (not (m.id == id) && false) (any other ms)
            (any-remaining_masters organization_id id s ms h))
      | inl e ↦ elim (Bool-cases (not (m.id == id) && is_master s m)) [
        | inl g ↦ rw (e, g) (λ h. refl)
        | inr g ↦ rw (e, g) (λ h. any-remaining_masters organization_id id s ms h)
      ]
    ]
  where
    other : OrganizationMembership → Bool
    other m = not (m.id == id) && is_active_master organization_id s m

-- A membership that is no active master is not what the organization needs.
inactive : (a b c : Bool) → b ≡ false → ((a && b) && c) ≡ false
inactive a b c h = ground arith

no_master : (a b c : Bool) → c ≡ false → ((a && b) && c) ≡ false
no_master a b c h = ground arith

still_active : (a b c d : Bool) → d ≡ true → ((a && b) && c) ≡ true → ((a && d) && c) ≡ true
still_active a b c d h k = ground arith

implied : (a b : Bool) → (a && not b) ≡ false → a ≡ true → b ≡ true
implied a b h k = ground arith

module _ (organization_id : ℕ) (s : Db) (m : OrganizationMembership)
    (status : MembershipStatus) where
  abbrev Kept : Type 0
  Kept =
      any (is_active_master organization_id s)
        (update_membership m.id (with_status status) s.memberships)
      ≡ true

  kept_without :
      get_membership m.id s ≡ some m
      → is_active_master organization_id s m ≡ false
      → HasMaster organization_id s
      → Kept
  kept_without found unneeded h =
      any-update_without (is_active_master organization_id s) (with_status status) m.id
        s.memberships found unneeded h

  -- The guard was passed: another master is left, or the membership was none.
  kept_guarded :
      get_membership m.id s ≡ some m
      → (is_master s m && is_empty (remaining_masters organization_id m.id s)) ≡ false
      → HasMaster organization_id s
      → Kept
  kept_guarded found = elim (Bool-cases (is_master s m)) [
    | inl e ↦ rw e (λ g h.
        any-update_others (is_active_master organization_id s) (with_status status) m.id
          s.memberships (any-remaining_masters organization_id m.id s s.memberships g))
    | inr e ↦ λ g h.
        kept_without found
          (no_master (m.organization_id == organization_id) (is_active_member m) (is_master s m) e)
          h
  ]

  -- The guard did not apply: the membership was not active, or stays so.
  kept_unguarded :
      get_membership m.id s ≡ some m
      → (is_active_status m.status && not (is_active_status status)) ≡ false
      → HasMaster organization_id s
      → Kept
  unfolding compute_effective_permissions list_overrides list_role_permission_keys
  kept_unguarded found g h = elim (Bool-cases (is_active_status m.status)) [
    | inl e ↦
        any-update_keeping (is_active_master organization_id s) (with_status status) m.id
          s.memberships
          (λ x.
            still_active (x.organization_id == organization_id) (is_active_member x) (is_master s x)
              (is_active_status status)
              (implied (is_active_status m.status) (is_active_status status) g e))
          h
    | inr e ↦
        kept_without found
          (inactive (m.organization_id == organization_id) (is_active_member m) (is_master s m) e) h
  ]

pub guard_master-then :
    (b : Bool) (organization_id : ℕ) (m : OrganizationMembership) (k : Tx Db (Unit {0})) (s : Db)
    {r : Unit {0} × Db}
    → (guard_master b organization_id m >> k) s ≡ ok r
    → (b ≡ true → (is_master s m && is_empty (remaining_masters organization_id m.id s)) ≡ false)
      × (k s ≡ ok r)
guard_master-then true organization_id m k s h =
    let (e, g) =
      raise_if-then (is_master s m && is_empty (remaining_masters organization_id m.id s))
        validation k s h in
    (λ _. e, g)
guard_master-then false organization_id m k s h = (λ e. cc, h)

-- No change of the status of a membership leaves an organization that has an active membership
-- with the permission to manage it without one.
pub set_membership_status-HasMaster :
    (organization_id membership_id : ℕ) (status : MembershipStatus) (actor_user_id : ℕ) (s : Db)
    (r : Unit {0} × Db)
    → HasMaster organization_id s
    → set_membership_status organization_id membership_id status actor_user_id s ≡ ok r
    → HasMaster organization_id r.1
unfolding set_membership_status compute_effective_permissions list_overrides
    list_role_permission_keys
set_membership_status-HasMaster organization_id membership_id status actor_user_id s r h e =
    let (m, found, e1) =
      or_raise-then (in_org organization_id (get_membership membership_id s)) not_found _ s e in
    let (guard, e2) =
      guard_master-then (is_active_status m.status && not (is_active_status status)) organization_id
        m _ s e1 in
    let row = get_membership_self membership_id s (in_org-some organization_id _ found) in
    subst (λ x. HasMaster organization_id x.1) (ok-injective e2)
      (elim (Bool-cases (is_active_status m.status && not (is_active_status status))) [
        | inl g ↦ kept_guarded organization_id s m status row (guard g) h
        | inr g ↦ kept_unguarded organization_id s m status row g h
      ])
