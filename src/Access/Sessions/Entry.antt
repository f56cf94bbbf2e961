-- ===== src/Access/Sessions/Entry.antt =====
-- services/auth.py: how a session begins: a login, the choice of an organization, an invitation
-- that is accepted, a password that is set anew. A token that a caller presents is read by `decode`.
pub mod Active
use nexasalon_api.Prelude.{
  ℕ, Bool, true, false, not, ◌&&◌, ◌||◌, ◌+◌, Option, none, some, List, [], ◌∷◌, map, ◌==◌,
  if◌then◌else◌, Result, Error, ok, err, unauthorized, forbidden,
}
use nexasalon_api.Access.Records.{
  MembershipStatus, invited, active, suspended, removed, User, OrganizationMembership, Db, Security,
  Settings, Request, Payload, TokenType, access, org_selection, invite, password_reset,
  customer_access,
}
use nexasalon_api.Access.Members.{
  get_membership, get_by_user_and_org, list_active_for_user, save_membership, get_user,
  get_by_email, save_user, is_active_member,
}
use nexasalon_api.Access.Users.{with_status}
use nexasalon_api.Access.Employees.{with_password, is_invited, is_removed}
use nexasalon_api.Access.Sessions.{Session, SessionTokens, atomic, refuse, issue_session_tokens}

abbrev pub token_code : TokenType → ℕ
token_code access = 0
token_code org_selection = 1
token_code invite = 2
token_code password_reset = 3
token_code customer_access = 4

abbrev pub is_type : TokenType → TokenType → Bool
is_type expected type = token_code type == token_code expected

-- `_resolve_organization_choices`, without the names.
pub record OrganizationChoice : Type 0 where
  pub organization_id : ℕ
  pub membership_id : ℕ
  pub role_id : ℕ

abbrev pub choice_of : OrganizationMembership → OrganizationChoice
choice_of m = record {
  organization_id = m.organization_id;
  membership_id = m.id;
  role_id = m.role_id;
}

pub data LoginResult : Type 0 where
  session : SessionTokens → LoginResult
  select_from : ℕ → List OrganizationChoice → LoginResult

abbrev pub session_of : Result SessionTokens × Db → Result LoginResult × Db
session_of (ok tokens, s) = (ok (session tokens), s)
session_of (err e, s) = (err e, s)

module _ (sec : Security) (settings : Settings) where
  abbrev pub issue : Request → ℕ → ℕ → ℕ → Session SessionTokens
  issue req user_id organization_id membership_id =
      atomic (issue_session_tokens sec settings req user_id organization_id membership_id)

  -- `create_org_selection_token`
  abbrev pub create_org_selection_token : Request → ℕ → ℕ
  create_org_selection_token req user_id = sec.encode (record {
    sub = user_id;
    org_id = none;
    membership_id = none;
    type_of = org_selection;
    jti = req.jti;
    iat = req.now;
    exp = req.now + settings.org_selection_token_ttl;
  })

  -- The first transaction of a login writes when it happened.
  abbrev pub touch : Request → ℕ → Db → Db
  touch req user_id s = save_user user_id (λ u. record u { last_login_at = some req.now }) s

  abbrev pub login_choices : Request → User → List OrganizationMembership → Session LoginResult
  login_choices req u [] s = refuse forbidden s
  login_choices req u (m ∷ []) s =
      session_of (issue req u.id m.organization_id m.id (touch req u.id s))
  login_choices req u (m ∷ n ∷ ms) s = (
    ok (select_from (create_org_selection_token req u.id) (map choice_of (m ∷ n ∷ ms))),
    touch req u.id s,
  )

  abbrev pub password_matches : ℕ → Option ℕ → Bool
  password_matches password none = false
  password_matches password (some hash) = sec.verify_password password hash

  abbrev pub login_user : Request → ℕ → Option User → Session LoginResult
  login_user req password none s = refuse unauthorized s
  login_user req password (some u) s =
      if password_matches password u.password_hash && u.is_active
      then login_choices req u (list_active_for_user u.id s) s
      else refuse unauthorized s

  unfoldable pub login : Request → ℕ → ℕ → Session LoginResult
  login req email password s = login_user req password (get_by_email email s) s

  -- The claims of a token of the expected kind.
  abbrev pub claims : TokenType → Option Payload → Option Payload
  claims expected none = none
  claims expected (some p) = if is_type expected p.type_of then some p else none

  abbrev pub enter_member : Request → ℕ → ℕ → Option OrganizationMembership → Session SessionTokens
  enter_member req user_id organization_id none s = refuse forbidden s
  enter_member req user_id organization_id (some m) s =
      if is_active_member m then issue req user_id organization_id m.id s else refuse forbidden s

  abbrev pub select_claims : Request → ℕ → Option Payload → Session SessionTokens
  select_claims req organization_id none s = refuse unauthorized s
  select_claims req organization_id (some p) s =
      enter_member req p.sub organization_id (get_by_user_and_org p.sub organization_id s) s

  unfoldable pub select_organization : Request → ℕ → ℕ → Session SessionTokens
  select_organization req token organization_id =
      select_claims req organization_id (claims org_selection (sec.decode req.now token))

  -- The membership that an invitation or a reset names, when it is one of its user.
  abbrev pub member_of_user : ℕ → Option OrganizationMembership → Option OrganizationMembership
  member_of_user user_id none = none
  member_of_user user_id (some m) = if m.user_id == user_id then some m else none

  abbrev pub named_member : Option Payload → Db → Option OrganizationMembership
  named_member none s = none
  named_member (some p) s = elim p.membership_id [
    | none ↦ none
    | some id ↦ member_of_user p.sub (get_membership id s)
  ]

  abbrev pub set_password : ℕ → ℕ → Db → Db
  set_password user_id password = save_user user_id (with_password (sec.hash_password password))

  abbrev pub activate : ℕ → Db → Db
  activate membership_id = save_membership membership_id (with_status active)

  abbrev pub accept_user :
      Request → ℕ → OrganizationMembership → Option User → Session SessionTokens
  accept_user req password m none s = refuse unauthorized s
  accept_user req password m (some u) s =
      issue req m.user_id m.organization_id m.id (activate m.id (set_password u.id password s))

  abbrev pub accept_member : Request → ℕ → Option OrganizationMembership → Session SessionTokens
  accept_member req password none s = refuse unauthorized s
  accept_member req password (some m) s =
      if is_invited m.status
      then accept_user req password m (get_user m.user_id s) s
      else refuse forbidden s

  unfoldable pub accept_invite : Request → ℕ → ℕ → Session SessionTokens
  accept_invite req token password s =
      accept_member req password (named_member (claims invite (sec.decode req.now token)) s) s

  abbrev pub reset_user : Request → ℕ → OrganizationMembership → Option User → Session SessionTokens
  reset_user req password m none s = refuse unauthorized s
  reset_user req password m (some u) s =
      if is_active_member m
      then issue req m.user_id m.organization_id m.id (set_password u.id password s)
      else refuse forbidden (set_password u.id password s)

  abbrev pub reset_member : Request → ℕ → Option OrganizationMembership → Session SessionTokens
  reset_member req password none s = refuse unauthorized s
  reset_member req password (some m) s =
      if is_invited m.status || is_removed m.status
      then refuse forbidden s
      else reset_user req password m (get_user m.user_id s) s

  unfoldable pub reset_password : Request → ℕ → ℕ → Session SessionTokens
  reset_password req token password s =
      reset_member req password (named_member (claims password_reset (sec.decode req.now token)) s)
        s
