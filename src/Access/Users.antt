-- ===== src/Access/Users.antt =====
-- services/user_management.py: the memberships of one organization, whose administrator calls.
-- A request that raises rolls back (api/deps.py `get_db`).
pub mod Masters
use nexasalon_api.Prelude.{
  ◌≡◌, inl, inr, Bool-cases, ℕ, suc, ◌+◌, Bool, true, false, not, ◌&&◌, ◌||◌, Option, none, some,
  List, [], ◌∷◌, ◌++◌, map, find, filter, ◌==◌, if◌then◌else◌, Tx, Result, ok, err, not_found,
  conflict, validation, integrity, pure, gets, modify, raise_if, or_raise, ◌>>=◌, ◌>>◌,
}
use nexasalon_api.Access.Records.{
  MembershipStatus, invited, active, suspended, removed, PermissionEffect, all_agendas, User,
  OrganizationMembership, Role, MembershipPermissionOverride, Professional, AuditEntity, membership,
  membership_permission_overrides, Db, Security, Settings, Request, Payload, TokenType,
  organization_manage,
}
use nexasalon_api.Access.Members.{
  get_membership, get_by_user_and_org, list_for_organization, save_membership, get_user,
  get_by_email, save_user, is_active_status,
}
use nexasalon_api.Access.Permissions.{contains, list_overrides, compute_effective_permissions}
use nexasalon_api.Access.Tokens.{is_some}

abbrev pub audit : ℕ → AuditEntity → ℕ → Tx Db (Unit {0})
audit actor_user_id entity id = modify (λ s. record s {
  audit_logs =
      record { entity_type = entity; entity_id = id; user_id = actor_user_id } ∷ s.audit_logs;
})

-- `_get_membership_in_org`
abbrev pub in_org : ℕ → Option OrganizationMembership → Option OrganizationMembership
in_org organization_id none = none
in_org organization_id (some m) = if m.organization_id == organization_id then some m else none

pub in_org-some :
    (organization_id : ℕ) (o : Option OrganizationMembership) {m : OrganizationMembership}
    → in_org organization_id o ≡ some m
    → o ≡ some m
in_org-some organization_id none = λ h. cc
in_org-some organization_id (some x) = elim (Bool-cases (x.organization_id == organization_id)) [
  | inl e ↦ rw e (λ h. h)
  | inr e ↦ rw e (λ h. cc)
]

abbrev pub get_membership_in_org : ℕ → ℕ → Tx Db OrganizationMembership
get_membership_in_org organization_id membership_id s =
    or_raise (in_org organization_id (get_membership membership_id s)) not_found s

-- `_validate_role_for_org`
abbrev pub is_role_of : ℕ → Option Role → Bool
is_role_of organization_id none = false
is_role_of organization_id (some r) = elim r.organization_id [
  | none ↦ true
  | some id ↦ id == organization_id
]

abbrev pub validate_role_for_org : ℕ → ℕ → Tx Db (Unit {0})
validate_role_for_org organization_id role_id s =
    raise_if (not (is_role_of organization_id (find (λ r. r.id == role_id) s.roles))) not_found s

-- The memberships of "Usuário Master".
abbrev pub is_master : Db → OrganizationMembership → Bool
is_master s m = contains organization_manage (compute_effective_permissions s m)

abbrev pub remaining_masters : ℕ → ℕ → Db → List OrganizationMembership
remaining_masters organization_id membership_id s =
    filter (λ m. not (m.id == membership_id) && is_master s m)
      (list_for_organization organization_id s)

abbrev pub is_empty : {A : Type 0} → List A → Bool
is_empty [] = true
is_empty (x ∷ xs) = false

-- `_assert_not_last_active_master`
abbrev pub assert_not_last_active_master : ℕ → OrganizationMembership → Tx Db (Unit {0})
assert_not_last_active_master organization_id m s =
    raise_if (is_master s m && is_empty (remaining_masters organization_id m.id s)) validation s

abbrev pub with_status : MembershipStatus → OrganizationMembership → OrganizationMembership
with_status status m = record m { status = status }

abbrev pub with_role : ℕ → OrganizationMembership → OrganizationMembership
with_role role_id m = record m { role_id = role_id }

abbrev pub guard_master : Bool → ℕ → OrganizationMembership → Tx Db (Unit {0})
guard_master true organization_id m = assert_not_last_active_master organization_id m
guard_master false organization_id m = pure tt

unfoldable pub set_membership_status : ℕ → ℕ → MembershipStatus → ℕ → Tx Db (Unit {0})
set_membership_status organization_id membership_id status actor_user_id = do
  m ← get_membership_in_org organization_id membership_id
  guard_master (is_active_status m.status && not (is_active_status status)) organization_id m
  modify (save_membership m.id (with_status status))
  audit actor_user_id membership m.id

unfoldable pub assign_role : ℕ → ℕ → ℕ → Tx Db (Unit {0})
assign_role organization_id membership_id role_id = do
  m ← get_membership_in_org organization_id membership_id
  validate_role_for_org organization_id role_id
  modify (save_membership m.id (with_role role_id))

-- The overrides of a membership are replaced as a whole.
abbrev pub override_rows : ℕ → List (ℕ × PermissionEffect) → List MembershipPermissionOverride
override_rows membership_id [] = []
override_rows membership_id ((key, effect) ∷ os) =
    record { membership_id = membership_id; permission_key = key; effect = effect }
    ∷ override_rows membership_id os

abbrev pub is_known : List ℕ → List (ℕ × PermissionEffect) → Bool
is_known keys [] = true
is_known keys ((key, effect) ∷ os) = contains key keys && is_known keys os

-- Two overrides of one key in a request break the primary key of the table.
abbrev pub has_key : ℕ → List (ℕ × PermissionEffect) → Bool
has_key key [] = false
has_key key ((k, effect) ∷ os) = k == key || has_key key os

abbrev pub has_repeated_key : List (ℕ × PermissionEffect) → Bool
has_repeated_key [] = false
has_repeated_key ((key, effect) ∷ os) = has_key key os || has_repeated_key os

abbrev pub put_overrides : ℕ → List (ℕ × PermissionEffect) → Db → Db
put_overrides membership_id os s = record s {
  overrides =
      filter (λ o. not (o.membership_id == membership_id)) s.overrides
      ++ override_rows membership_id os;
}

unfoldable pub set_permission_overrides :
    ℕ → ℕ → ℕ → List (ℕ × PermissionEffect) → Tx Db (List MembershipPermissionOverride)
set_permission_overrides organization_id membership_id actor_user_id os = do
  m ← get_membership_in_org organization_id membership_id
  keys ← gets (λ s. s.permissions)
  raise_if (not (is_known keys os)) validation
  raise_if (has_repeated_key os) integrity
  modify (put_overrides m.id os)
  audit actor_user_id membership_permission_overrides m.id
  gets (list_overrides m.id)
