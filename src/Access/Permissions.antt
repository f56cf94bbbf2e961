-- ===== src/Access/Permissions.antt =====
-- `compute_effective_permissions` of services/auth.py, with the queries of
-- repositories/rbac_repo.py. A set of keys is a list of which only `contains` is read.
pub mod Effective
use nexasalon_api.Prelude.{
  ℕ, Bool, true, false, not, ◌&&◌, ◌||◌, List, [], ◌∷◌, map, filter, ◌==◌, if◌then◌else◌,
}
use nexasalon_api.Access.Records.{
  PermissionEffect, grant, deny, agenda_create, agenda_edit, agenda_view_own, agenda_view_all,
  OrganizationMembership, MembershipPermissionOverride, Db,
}

abbrev pub contains : ℕ → List ℕ → Bool
contains key [] = false
contains key (k ∷ ks) = k == key || contains key ks

abbrev pub discard : ℕ → List ℕ → List ℕ
discard key ks = filter (λ k. not (k == key)) ks

-- `list_role_permission_keys`
unfoldable pub list_role_permission_keys : ℕ → Db → List ℕ
list_role_permission_keys role_id s =
    map (λ r. r.permission_key) (filter (λ r. r.role_id == role_id) s.role_permissions)

-- `list_overrides`
unfoldable pub list_overrides : ℕ → Db → List MembershipPermissionOverride
list_overrides membership_id s = filter (λ o. o.membership_id == membership_id) s.overrides

-- One turn of the loop over the overrides.
abbrev pub override_by : PermissionEffect → ℕ → List ℕ → List ℕ
override_by grant key granted = key ∷ granted
override_by deny key granted = discard key granted

abbrev pub apply_overrides : List MembershipPermissionOverride → List ℕ → List ℕ
apply_overrides [] granted = granted
apply_overrides (o ∷ os) granted =
    apply_overrides os (override_by o.effect o.permission_key granted)

-- Creating or editing in the agenda is never left without a permission to view it.
abbrev pub with_view : List ℕ → List ℕ
with_view granted =
    if (contains agenda_create granted || contains agenda_edit granted)
      && not (contains agenda_view_own granted || contains agenda_view_all granted)
    then agenda_view_own ∷ granted
    else granted

unfoldable pub compute_effective_permissions : Db → OrganizationMembership → List ℕ
compute_effective_permissions s membership = with_view (
    apply_overrides (list_overrides membership.id s)
      (list_role_permission_keys membership.role_id s))
