-- ===== src/Access/Actor.antt =====
-- api/deps.py: who asks, read anew from the database at every request, and what he may do.
pub mod LockedOut
use nexasalon_api.Prelude.{
  ℕ, Bool, true, false, not, ◌&&◌, ◌||◌, Option, none, some, List, [], ◌∷◌, find, any, ◌==◌,
  if◌then◌else◌, Result, ok, err, unauthorized, forbidden,
}
use nexasalon_api.Access.Records.{
  OrganizationMembership, User, Professional, Db, Security, Payload, access,
}
use nexasalon_api.Access.Members.{get_membership, get_user, is_active_member}
use nexasalon_api.Access.Permissions.{contains, compute_effective_permissions}
use nexasalon_api.Access.Agenda.{ActorContext, is_professional, resolve_viewable_and_editable_ids}
use nexasalon_api.Access.Sessions.Entry.{is_type}

-- `professional_repo.get_by_user`
abbrev pub professional_of : ℕ → ℕ → Db → Option ℕ
professional_of organization_id user_id s =
    elim (find (λ p. p.organization_id == organization_id && is_professional user_id p.user_id)
      s.professionals) [ none ↦ none | some p ↦ some p.id ]

abbrev pub is_active_user : Option User → Bool
is_active_user none = false
is_active_user (some u) = u.is_active

abbrev pub actor_for : Db → OrganizationMembership → ActorContext
actor_for s m = record {
  organization_id = m.organization_id;
  user_id = m.user_id;
  membership_id = m.id;
  role_id = m.role_id;
  permissions = compute_effective_permissions s m;
  professional_id = professional_of m.organization_id m.user_id s;
  agenda_viewable_professional_ids = (resolve_viewable_and_editable_ids s m).0;
  agenda_editable_professional_ids = (resolve_viewable_and_editable_ids s m).1;
}

abbrev pub actor_member : ℕ → ℕ → Option OrganizationMembership → Db → Result ActorContext
actor_member user_id organization_id none s = err forbidden
actor_member user_id organization_id (some m) s =
    if (m.user_id == user_id && m.organization_id == organization_id) && is_active_member m
    then ok (actor_for s m)
    else err forbidden

abbrev pub actor_claims : ℕ → Option ℕ → Option ℕ → Db → Result ActorContext
actor_claims user_id none membership_id s = err unauthorized
actor_claims user_id (some organization_id) none s = err unauthorized
actor_claims user_id (some organization_id) (some membership_id) s =
    if is_active_user (get_user user_id s)
    then actor_member user_id organization_id (get_membership membership_id s) s
    else err unauthorized

abbrev pub actor_payload : Option Payload → Db → Result ActorContext
actor_payload none s = err unauthorized
actor_payload (some p) s =
    if is_type access p.type_of
    then actor_claims p.sub p.org_id p.membership_id s
    else err unauthorized

-- `_get_real_current_actor`, at an instant and with the token of the request.
unfoldable pub get_real_current_actor : Security → ℕ → ℕ → Db → Result ActorContext
get_real_current_actor sec now token s = actor_payload (sec.decode now token) s

unfoldable pub require_permission : ℕ → ActorContext → Result ActorContext
require_permission permission_key actor =
    if contains permission_key actor.permissions then ok actor else err forbidden

unfoldable pub require_any_permission : List ℕ → ActorContext → Result ActorContext
require_any_permission keys actor =
    if any (λ key. contains key actor.permissions) keys then ok actor else err forbidden
