-- ===== src/Tests/Access.antt =====
-- Two owners of one organization; a token of the first is live and another one spent.
use nexasalon_api.Prelude.{
  ℕ, ◌+◌, ◌≤◌, ◌≡◌, refl, subst, true, false, ◌&&◌, ◌||◌, none, some, [], ◌∷◌, ◌==◌, if◌then◌else◌,
  ok, err, unauthorized, some-injective,
}
use nexasalon_api.Access.Records.{
  active, suspended, deny, all_agendas, selected_agendas, agenda_edit, agenda_view_own,
  agenda_view_all, organization_manage, access, OrganizationMembership, Db, Security, Settings,
  Request, Payload,
}
use nexasalon_api.Access.Permissions.{
  contains, compute_effective_permissions, list_overrides, list_role_permission_keys,
}
use nexasalon_api.Access.Permissions.Effective.{
  decided, needs_view, compute_effective_permissions-decided, compute_effective_permissions-view,
}
use nexasalon_api.Access.Users.{set_membership_status}
use nexasalon_api.Access.Users.Masters.{HasMaster, set_membership_status-HasMaster}
use nexasalon_api.Access.Sessions.{refresh, logout, session_tokens, issue_session_tokens}
use nexasalon_api.Access.Sessions.Tickets.{Ticket, view}
use nexasalon_api.Access.Sessions.Rotation.{refresh-spec_refresh, logout-ended}
use nexasalon_api.Access.Sessions.Traces.{refreshes, logs_out, SessionCall, run, is_ok}
use nexasalon_api.Access.Sessions.Traces as Traces
use nexasalon_api.Access.Sessions.Traces.Once.{refresh_once}
use nexasalon_api.Access.Sessions.Traces.Reuse.{refresh_reused}
use nexasalon_api.Access.Sessions.Entry.{login, select_organization, accept_invite, reset_password}
use nexasalon_api.Access.Sessions.Entry.Active.{LogsIn, session_active}
use nexasalon_api.Access.Agenda.{
  ActorContext, set_agenda_access, resolve_viewable_and_editable_ids, can_view_professional,
  can_edit_professional, with_scopes,
}
use nexasalon_api.Access.Agenda.Scopes.{set_agenda_access-edit}
use nexasalon_api.Access.Actor.{get_real_current_actor}
use nexasalon_api.Access.Actor.LockedOut.{set_membership_status-LockedOut}

runs : Unit {0}
unfolding compute_effective_permissions list_overrides list_role_permission_keys
    set_membership_status refresh logout issue_session_tokens set_agenda_access
    resolve_viewable_and_editable_ids can_view_professional can_edit_professional
    get_real_current_actor login select_organization accept_invite reset_password
runs = tt

-- A digest adds 1000, and the token 70 is an access token of the first owner.
abbrev payload : Payload
payload = record {
  sub = 1;
  org_id = some 5;
  membership_id = some 10;
  type_of = access;
  jti = 70;
  iat = 0;
  exp = 900;
}

abbrev sec : Security
sec = record {
  hash_opaque_token = λ n. n + 1000;
  hash_password = λ n. n + 1;
  verify_password = λ n h. h == n + 1;
  encode = λ p. p.jti;
  decode = λ now token. if token == 70 then some payload else none;
}

abbrev settings : Settings
settings = record {
  access_token_ttl = 900;
  org_selection_token_ttl = 300;
  invite_token_ttl = 604800;
  refresh_token_ttl = 2592000;
}

abbrev owner : OrganizationMembership
owner = record {
  id = 10;
  user_id = 1;
  organization_id = 5;
  role_id = 20;
  status = active;
  agenda_view_scope = all_agendas;
  agenda_edit_scope = all_agendas;
}

abbrev db : Db
db = record {
  users =
      record { id = 1; email = 11; password_hash = some 43; is_active = true; last_login_at = none }
      ∷ [];
  memberships = owner ∷ record owner { id = 12; user_id = 2 } ∷ [];
  roles = record { id = 20; organization_id = none } ∷ [];
  permissions = agenda_edit ∷ agenda_view_all ∷ organization_manage ∷ [];
  role_permissions =
      record { role_id = 20; permission_key = agenda_edit }
      ∷ record { role_id = 20; permission_key = agenda_view_all }
      ∷ record { role_id = 20; permission_key = organization_manage }
      ∷ [];
  overrides = record { membership_id = 10; permission_key = agenda_view_all; effect = deny } ∷ [];
  grants = [];
  professionals =
      record { id = 30; organization_id = 5; user_id = some 1 }
      ∷ record { id = 31; organization_id = 5; user_id = none }
      ∷ [];
  tokens =
      record {
        id = 40;
        user_id = 1;
        organization_id = 5;
        membership_id = 10;
        token_hash = 1007;
        issued_at = 0;
        expires_at = 500;
        revoked_at = none;
        replaced_by_id = none;
      }
      ∷ record {
        id = 39;
        user_id = 1;
        organization_id = 5;
        membership_id = 10;
        token_hash = 1006;
        issued_at = 0;
        expires_at = 500;
        revoked_at = some 3;
        replaced_by_id = some 40;
      }
      ∷ [];
  audit_logs = [];
  next_id = 41;
}

abbrev req : ℕ → Request
req n = record { now = 100 + n; opaque_token = 50 + n; jti = 60 + n }

abbrev live : Ticket
live = record {
  user_id = 1;
  organization_id = 5;
  membership_id = 10;
  expires_at = 500;
  is_live = true;
}

-- The override takes the view of all agendas, and the rule gives back the view of one's own.
compute_effective_permissions-decided_example :
    contains agenda_view_own (compute_effective_permissions db owner) ≡ (
      (agenda_view_own == agenda_view_own && needs_view (decided db owner))
      || decided db owner agenda_view_own)
compute_effective_permissions-decided_example =
    compute_effective_permissions-decided db owner agenda_view_own

compute_effective_permissions-view_example :
    (contains agenda_view_own (compute_effective_permissions db owner)
      || contains agenda_view_all (compute_effective_permissions db owner))
    ≡ true
unfolding runs
compute_effective_permissions-view_example = compute_effective_permissions-view db owner refl

refresh-spec_refresh_example :
    (refresh sec settings (req 1) 7 db).0 ≡ ok (session_tokens sec settings (req 1) 1 5 10)
unfolding runs
refresh-spec_refresh_example = (refresh-spec_refresh sec settings (req 1) 7 db).0

logout-ended_example :
    view ((logout sec settings (req 1) 7 db).1).tokens 1007 ≡ some (record live { is_live = false })
unfolding runs
logout-ended_example = (logout-ended sec settings (req 1) 7 db).1 1007

refresh_once_example :
    Traces.uses sec settings 7 (refreshes (req 1) 7 ∷ refreshes (req 2) 7 ∷ []) db ≤ 1
refresh_once_example =
    refresh_once sec settings 7 (refreshes (req 1) 7 ∷ refreshes (req 2) 7 ∷ []) db

refresh_reused_example :
    ((refresh sec settings (req 1) 6 db).0 ≡ err unauthorized)
    × ((refresh sec settings
          (req 2)
          7
          (run sec settings (logs_out (req 3) 9 ∷ []) (refresh sec settings (req 1) 6 db).1)).0
        ≡ err unauthorized)
unfolding runs
refresh_reused_example =
    refresh_reused sec settings (req 1) (req 2) 6 7 db (record live { is_live = false })
      (record live { is_live = false }) (logs_out (req 3) 9 ∷ []) refl refl (refl, tt) refl refl

abbrev without_first : Db
without_first = record db {
  memberships = record owner { status = suspended } ∷ record owner { id = 12; user_id = 2 } ∷ [];
  audit_logs =
      record { entity_type = nexasalon_api.Access.Records.membership; entity_id = 10; user_id = 2 }
      ∷ [];
}

set_membership_status-HasMaster_example : HasMaster 5 without_first
unfolding runs
set_membership_status-HasMaster_example =
    set_membership_status-HasMaster 5 10 suspended 2 db (tt, without_first) refl refl

set_membership_status-LockedOut_example :
    (is_ok (get_real_current_actor sec 100 70 without_first) ≡ false)
    × (is_ok (refresh sec settings (req 1) 7 without_first).0 ≡ false)
unfolding runs
set_membership_status-LockedOut_example =
    set_membership_status-LockedOut sec settings 5 10 suspended 2 db (tt, without_first) 100 70
      (req 1) 7 live refl refl
      (λ p h. subst (λ q. q.membership_id ≡ some 10) (some-injective h) refl) refl refl

session_active_example : LogsIn (login sec settings (req 1) 11 42 db)
session_active_example = (session_active sec settings (req 1) 70 5 11 42 db).0

abbrev configured : Db
configured = record db {
  memberships =
      with_scopes selected_agendas selected_agendas owner
      ∷ record owner { id = 12; user_id = 2 }
      ∷ [];
  grants =
      record { membership_id = 10; professional_id = 30; can_view = true; can_edit = false }
      ∷ record { membership_id = 10; professional_id = 31; can_view = true; can_edit = true }
      ∷ [];
}

abbrev pub actor : ActorContext
actor = record {
  organization_id = 5;
  user_id = 1;
  membership_id = 10;
  role_id = 20;
  permissions = agenda_edit ∷ agenda_view_own ∷ [];
  professional_id = some 30;
  agenda_viewable_professional_ids = some (30 ∷ 31 ∷ []);
  agenda_editable_professional_ids = some (31 ∷ []);
}

set_agenda_access-edit_example : can_view_professional actor 31 ≡ true
unfolding runs
set_agenda_access-edit_example =
    set_agenda_access-edit 5 10 selected_agendas selected_agendas (30 ∷ 31 ∷ []) (31 ∷ []) db
      (tt, configured) (with_scopes selected_agendas selected_agendas owner) actor 31 refl refl refl
      refl refl
