-- ===== src/Access/Members.antt =====
-- repositories/membership_repo.py and user_repo.py. A row is written where its id is found.
pub mod Lookup
use nexasalon_api.Prelude.{
  ℕ, Bool, true, false, ◌&&◌, Option, List, [], ◌∷◌, find, filter, ◌==◌, if◌then◌else◌,
}
use nexasalon_api.Access.Records.{
  MembershipStatus, invited, active, suspended, removed, OrganizationMembership, User, Db,
}

abbrev pub is_active_status : MembershipStatus → Bool
is_active_status invited = false
is_active_status active = true
is_active_status suspended = false
is_active_status removed = false

abbrev pub is_active_member : OrganizationMembership → Bool
is_active_member m = is_active_status m.status

-- `membership_repo.get`
abbrev pub get_membership : ℕ → Db → Option OrganizationMembership
get_membership membership_id s = find (λ m. m.id == membership_id) s.memberships

abbrev pub get_by_user_and_org : ℕ → ℕ → Db → Option OrganizationMembership
get_by_user_and_org user_id organization_id s =
    find (λ m. m.user_id == user_id && m.organization_id == organization_id) s.memberships

abbrev pub list_active_for_user : ℕ → Db → List OrganizationMembership
list_active_for_user user_id s =
    filter (λ m. m.user_id == user_id && is_active_member m) s.memberships

-- `list_for_organization`, without the inactive ones.
abbrev pub list_for_organization : ℕ → Db → List OrganizationMembership
list_for_organization organization_id s =
    filter (λ m. m.organization_id == organization_id && is_active_member m) s.memberships

abbrev pub update_membership :
    ℕ
    → (OrganizationMembership → OrganizationMembership)
    → List OrganizationMembership
    → List OrganizationMembership
update_membership id f [] = []
update_membership id f (m ∷ ms) = if m.id == id then f m ∷ ms else m ∷ update_membership id f ms

abbrev pub save_membership : ℕ → (OrganizationMembership → OrganizationMembership) → Db → Db
save_membership id f s = record s { memberships = update_membership id f s.memberships }

-- `user_repo.get` and `get_by_email`, the address in lower case.
abbrev pub get_user : ℕ → Db → Option User
get_user user_id s = find (λ u. u.id == user_id) s.users

abbrev pub get_by_email : ℕ → Db → Option User
get_by_email email s = find (λ u. u.email == email) s.users

abbrev pub update_user : ℕ → (User → User) → List User → List User
update_user id f [] = []
update_user id f (u ∷ us) = if u.id == id then f u ∷ us else u ∷ update_user id f us

abbrev pub save_user : ℕ → (User → User) → Db → Db
save_user id f s = record s { users = update_user id f s.users }
