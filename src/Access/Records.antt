-- ===== src/Access/Records.antt =====
-- The tables of models/identity.py, models/auth.py, models/rbac.py and models/agenda_access.py, for
-- all organizations. Permission keys are numbers, of which the code names the six below; texts
-- and tokens are numbers too. Names, phones and the values of an audit row are left out.
use nexasalon_api.Prelude.{ℕ, Bool, Option, List}

pub data MembershipStatus : Type 0 where
  invited active suspended removed : MembershipStatus

pub data PermissionEffect : Type 0 where
  grant deny : PermissionEffect

pub data AgendaAccessScope : Type 0 where
  all_agendas selected_agendas : AgendaAccessScope

abbrev pub agenda_create : ℕ
agenda_create = 1

abbrev pub agenda_edit : ℕ
agenda_edit = 2

abbrev pub agenda_view_own : ℕ
agenda_view_own = 3

abbrev pub agenda_view_all : ℕ
agenda_view_all = 4

-- `FORCE_OVERLAP_PERMISSION`
abbrev pub agenda_force_overlap : ℕ
agenda_force_overlap = 6

-- `_MASTER_PERMISSION`
abbrev pub organization_manage : ℕ
organization_manage = 5

pub record User : Type 0 where
  pub id : ℕ
  pub email : ℕ
  pub password_hash : Option ℕ
  pub is_active : Bool
  pub last_login_at : Option ℕ

pub record OrganizationMembership : Type 0 where
  pub id : ℕ
  pub user_id : ℕ
  pub organization_id : ℕ
  pub role_id : ℕ
  pub status : MembershipStatus
  pub agenda_view_scope : AgendaAccessScope
  pub agenda_edit_scope : AgendaAccessScope

-- `organization_id` is `none` for the roles of the system.
pub record Role : Type 0 where
  pub id : ℕ
  pub organization_id : Option ℕ

pub record RolePermission : Type 0 where
  pub role_id : ℕ
  pub permission_key : ℕ

pub record MembershipPermissionOverride : Type 0 where
  pub membership_id : ℕ
  pub permission_key : ℕ
  pub effect : PermissionEffect

pub record MembershipAgendaGrant : Type 0 where
  pub membership_id : ℕ
  pub professional_id : ℕ
  pub can_view : Bool
  pub can_edit : Bool

pub record Professional : Type 0 where
  pub id : ℕ
  pub organization_id : ℕ
  pub user_id : Option ℕ

pub record RefreshToken : Type 0 where
  pub id : ℕ
  pub user_id : ℕ
  pub organization_id : ℕ
  pub membership_id : ℕ
  pub token_hash : ℕ
  pub issued_at : ℕ
  pub expires_at : ℕ
  pub revoked_at : Option ℕ
  pub replaced_by_id : Option ℕ

pub data AuditEntity : Type 0 where
  membership membership_permission_overrides : AuditEntity

pub record AuditLog : Type 0 where
  pub entity_type : AuditEntity
  pub entity_id : ℕ
  pub user_id : ℕ

pub record Db : Type 0 where
  pub users : List User
  pub memberships : List OrganizationMembership
  pub roles : List Role
  pub permissions : List ℕ
  pub role_permissions : List RolePermission
  pub overrides : List MembershipPermissionOverride
  pub grants : List MembershipAgendaGrant
  pub professionals : List Professional
  pub tokens : List RefreshToken
  pub audit_logs : List AuditLog
  pub next_id : ℕ

-- `TokenType` of core/security.py, and the claims of a signed token.
pub data TokenType : Type 0 where
  access org_selection invite password_reset customer_access : TokenType

pub record Payload : Type 0 where
  pub sub : ℕ
  pub org_id : Option ℕ
  pub membership_id : Option ℕ
  pub type_of : TokenType
  pub jti : ℕ
  pub iat : ℕ
  pub exp : ℕ

-- What core/security.py takes from hashlib, argon2 and jwt: the digest of a raw token, the hash of
-- a password and its check, a signed token, and its claims if at that instant it is valid.
pub record Security : Type 0 where
  pub hash_opaque_token : ℕ → ℕ
  pub hash_password : ℕ → ℕ
  pub verify_password : ℕ → ℕ → Bool
  pub encode : Payload → ℕ
  pub decode : ℕ → ℕ → Option Payload

-- The lifetimes of core/config.py, in seconds.
pub record Settings : Type 0 where
  pub access_token_ttl : ℕ
  pub org_selection_token_ttl : ℕ
  pub invite_token_ttl : ℕ
  pub refresh_token_ttl : ℕ

-- What one request draws from outside: the clock, a random raw token and a random `jti`.
pub record Request : Type 0 where
  pub now : ℕ
  pub opaque_token : ℕ
  pub jti : ℕ
