-- ===== src/Access/Permissions/Effective.antt =====
-- What the loop of `compute_effective_permissions` decides, read off the role and the overrides
-- one permission at a time.
use nexasalon_api.Prelude.{
  ℕ, Bool, true, false, not, ◌&&◌, ◌||◌, Option, none, some, List, [], ◌∷◌, ◌≡◌, refl, ◌∙◌, arith,
  ◌==◌, if◌then◌else◌,
}
use nexasalon_api.Access.Records.{
  PermissionEffect, grant, deny, agenda_create, agenda_edit, agenda_view_own, agenda_view_all,
  OrganizationMembership, MembershipPermissionOverride, Db,
}
use nexasalon_api.Access.Permissions.{
  contains, discard, override_by, apply_overrides, with_view, list_role_permission_keys,
  list_overrides, compute_effective_permissions,
}

-- The effect of the last override of a key.
abbrev pub latest : ℕ → List MembershipPermissionOverride → Option PermissionEffect
latest key [] = none
latest key (o ∷ os) = elim (latest key os) [
  | none ↦ if o.permission_key == key then some o.effect else none
  | some e ↦ some e
]

-- The overrides decide, and where they are silent the role does.
abbrev pub decide : Option PermissionEffect → Bool → Bool
decide none role = role
decide (some grant) role = true
decide (some deny) role = false

abbrev pub decided : Db → OrganizationMembership → ℕ → Bool
decided s membership key =
    decide (latest key (list_overrides membership.id s))
      (contains key (list_role_permission_keys membership.role_id s))

contains-discard :
    (key k : ℕ) (ks : List ℕ) → contains key (discard k ks) ≡ (not (k == key) && contains key ks)
contains-discard key k [] = ground arith
contains-discard key k (x ∷ ks) = ground (arith, contains-discard key k ks)

contains-override_by :
    (key : ℕ) (o : MembershipPermissionOverride) (granted : List ℕ)
    → contains key (override_by o.effect o.permission_key granted)
      ≡ decide (if o.permission_key == key then some o.effect else none) (contains key granted)
contains-override_by key o granted = by_effect o.effect
  where
    by_effect :
        (e : PermissionEffect)
        → contains key (override_by e o.permission_key granted)
          ≡ decide (if o.permission_key == key then some e else none) (contains key granted)
    by_effect grant = ground arith
    by_effect deny = ground (arith, contains-discard key o.permission_key granted)

contains-apply_overrides :
    (key : ℕ) (os : List MembershipPermissionOverride) (granted : List ℕ)
    → contains key (apply_overrides os granted) ≡ decide (latest key os) (contains key granted)
contains-apply_overrides key [] granted = refl
contains-apply_overrides key (o ∷ os) granted =
    contains-apply_overrides key os (override_by o.effect o.permission_key granted)
    ∙ by_rest (latest key os)
  where
    by_rest :
        (l : Option PermissionEffect)
        → decide l (contains key (override_by o.effect o.permission_key granted))
          ≡ decide
              (elim l [
                | none ↦ if o.permission_key == key then some o.effect else none
                | some e ↦ some e
              ])
              (contains key granted)
    by_rest none = contains-override_by key o granted
    by_rest (some grant) = refl
    by_rest (some deny) = refl

-- The rule on the agenda, on what the role and the overrides decide.
abbrev pub needs_view : (ℕ → Bool) → Bool
needs_view has =
    (has agenda_create || has agenda_edit) && not (has agenda_view_own || has agenda_view_all)

contains-with_view :
    (key : ℕ) (granted : List ℕ)
    → contains key (with_view granted)
      ≡ ((agenda_view_own == key && needs_view (λ k. contains k granted)) || contains key granted)
contains-with_view key granted = ground arith

-- A permission is effective exactly when its last override grants it, or no override names it and
-- the role has it, or it is the view of one's own agenda and the others so decided let one create
-- or edit in the agenda and view nothing of it.
pub compute_effective_permissions-decided :
    (s : Db) (membership : OrganizationMembership) (key : ℕ)
    → contains key (compute_effective_permissions s membership)
      ≡ ((agenda_view_own == key && needs_view (decided s membership)) || decided s membership key)
unfolding compute_effective_permissions
compute_effective_permissions-decided s membership key =
    contains-with_view key granted
    ∙ rw
        (
          granted_lem key,
          granted_lem agenda_create,
          granted_lem agenda_edit,
          granted_lem agenda_view_own,
          granted_lem agenda_view_all,
        )
        refl
  where
    granted : List ℕ
    granted =
        apply_overrides (list_overrides membership.id s)
          (list_role_permission_keys membership.role_id s)

    granted_lem : (k : ℕ) → contains k granted ≡ decided s membership k
    granted_lem k =
        contains-apply_overrides k (list_overrides membership.id s)
          (list_role_permission_keys membership.role_id s)

with_view-view :
    (granted : List ℕ)
    → (contains agenda_create (with_view granted) || contains agenda_edit (with_view granted))
      ≡ true
    → (contains agenda_view_own (with_view granted) || contains agenda_view_all (with_view granted))
      ≡ true
with_view-view granted h = ground (arith, h)

-- Whoever may create or edit in the agenda may view some of it, whatever the role and the
-- overrides that were stored.
pub compute_effective_permissions-view :
    (s : Db) (membership : OrganizationMembership)
    → (contains agenda_create (compute_effective_permissions s membership)
        || contains agenda_edit (compute_effective_permissions s membership))
      ≡ true
    → (contains agenda_view_own (compute_effective_permissions s membership)
        || contains agenda_view_all (compute_effective_permissions s membership))
      ≡ true
unfolding compute_effective_permissions
compute_effective_permissions-view s membership h =
    with_view-view
      (apply_overrides (list_overrides membership.id s)
        (list_role_permission_keys membership.role_id s))
      h
