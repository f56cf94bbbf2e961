-- ===== src/Access/Employees.antt =====
-- services/user_management.py: giving an employee access, by a password or by an invitation.
use nexasalon_api.Prelude.{
  ℕ, suc, ◌+◌, Bool, true, false, not, ◌&&◌, ◌||◌, Option, none, some, List, [], ◌∷◌, ◌++◌, find,
  ◌==◌, if◌then◌else◌, Tx, ok, not_found, conflict, pure, gets, modify, raise_if, or_raise, ◌>>=◌,
  ◌>>◌,
}
use nexasalon_api.Access.Records.{
  MembershipStatus, invited, active, suspended, removed, all_agendas, User, OrganizationMembership,
  Professional, membership, Db, Security, Settings, Request, TokenType,
}
use nexasalon_api.Access.Members.{
  get_by_user_and_org, get_user, get_by_email, save_membership, save_user,
}
use nexasalon_api.Access.Users.{audit, get_membership_in_org, validate_role_for_org, with_status}
use nexasalon_api.Access.Tokens.{is_some}

abbrev pub with_password : ℕ → User → User
with_password hash u = record u { password_hash = some hash }

-- `user_repo.create`
abbrev pub create_user : ℕ → Tx Db User
create_user email s =
    ok (new_user, record s { users = s.users ++ new_user ∷ []; next_id = suc s.next_id })
  where
    new_user : User
    new_user = record {
      id = s.next_id;
      email = email;
      password_hash = none;
      is_active = true;
      last_login_at = none;
    }

abbrev pub user_or_create : Option User → ℕ → Tx Db User
user_or_create (some u) email = pure u
user_or_create none email = create_user email

-- `membership_repo.create`
abbrev pub create_membership : ℕ → ℕ → ℕ → MembershipStatus → Tx Db OrganizationMembership
create_membership user_id organization_id role_id status s =
    ok (row, record s { memberships = s.memberships ++ row ∷ []; next_id = suc s.next_id })
  where
    row : OrganizationMembership
    row = record {
      id = s.next_id;
      user_id = user_id;
      organization_id = organization_id;
      role_id = role_id;
      status = status;
      agenda_view_scope = all_agendas;
      agenda_edit_scope = all_agendas;
    }

pub data CredentialMode : Type 0 where
  existing_account_linked password_set invite_link : CredentialMode

pub record EmployeeInviteResult : Type 0 where
  pub membership : OrganizationMembership
  pub invite_token : Option ℕ
  pub credential_mode : CredentialMode

abbrev pub is_invited : MembershipStatus → Bool
is_invited invited = true
is_invited active = false
is_invited suspended = false
is_invited removed = false

abbrev pub is_removed : MembershipStatus → Bool
is_removed invited = false
is_removed active = false
is_removed suspended = false
is_removed removed = true

module _ (sec : Security) (settings : Settings) where
  -- The claims of `create_invite_token` and `create_password_reset_token`.
  abbrev pub membership_token : TokenType → Request → ℕ → ℕ → ℕ
  membership_token type req user_id membership_id = sec.encode (record {
    sub = user_id;
    org_id = none;
    membership_id = some membership_id;
    type_of = type;
    jti = req.jti;
    iat = req.now;
    exp = req.now + settings.invite_token_ttl;
  })

  -- The credential of the employee, and with it the status of the membership.
  abbrev pub credential : User → Option ℕ → Tx Db (MembershipStatus × CredentialMode)
  credential u password = elim u.password_hash [
    | some hash ↦ pure (active, existing_account_linked)
    | none ↦ elim password [
      | some p ↦
          modify (save_user u.id (with_password (sec.hash_password p)))
          >> pure (active, password_set)
      | none ↦ pure (invited, invite_link)
    ]
  ]

  unfoldable pub add_or_invite_employee :
      Request → ℕ → ℕ → ℕ → ℕ → Option ℕ → Tx Db EmployeeInviteResult
  add_or_invite_employee req organization_id email role_id actor_user_id password = do
    validate_role_for_org organization_id role_id
    found ← gets (get_by_email email)
    u ← user_or_create found email
    existing ← gets (get_by_user_and_org u.id organization_id)
    raise_if (is_some existing) conflict
    c ← credential u password
    m ← create_membership u.id organization_id role_id c.0
    audit actor_user_id membership m.id
    pure (record {
      membership = m;
      invite_token =
          if is_invited c.0 then some (membership_token TokenType.invite req u.id m.id) else none;
      credential_mode = c.1;
    })

  unfoldable pub resend_invite : Request → ℕ → ℕ → Tx Db ℕ
  resend_invite req organization_id membership_id = do
    m ← get_membership_in_org organization_id membership_id
    raise_if (not (is_invited m.status)) conflict
    pure (membership_token TokenType.invite req m.user_id m.id)

  unfoldable pub admin_reset_password : Request → ℕ → ℕ → Tx Db ℕ
  admin_reset_password req organization_id membership_id = do
    m ← get_membership_in_org organization_id membership_id
    raise_if (is_invited m.status || is_removed m.status) conflict
    pure (membership_token TokenType.password_reset req m.user_id m.id)

  abbrev pub activate_if : Bool → ℕ → Tx Db (Unit {0})
  activate_if true membership_id = modify (save_membership membership_id (with_status active))
  activate_if false membership_id = pure tt

  unfoldable pub admin_set_password : ℕ → ℕ → ℕ → ℕ → Tx Db (Unit {0})
  admin_set_password organization_id membership_id actor_user_id password = do
    m ← get_membership_in_org organization_id membership_id
    raise_if (is_removed m.status) conflict
    u ← (λ s. or_raise (get_user m.user_id s) not_found s)
    modify (save_user u.id (with_password (sec.hash_password password)))
    activate_if (is_invited m.status) m.id
    audit actor_user_id membership m.id

-- `link_professional`
abbrev pub update_professional : ℕ → ℕ → List Professional → List Professional
update_professional id user_id [] = []
update_professional id user_id (p ∷ ps) =
    if p.id == id
    then record p { user_id = some user_id } ∷ ps
    else p ∷ update_professional id user_id ps

abbrev pub is_of_other_user : ℕ → Option ℕ → Bool
is_of_other_user user_id none = false
is_of_other_user user_id (some id) = not (id == user_id)

unfoldable pub link_professional : ℕ → ℕ → ℕ → Tx Db (Unit {0})
link_professional organization_id membership_id professional_id = do
  m ← get_membership_in_org organization_id membership_id
  p ← (λ s.
      or_raise
        (find (λ p. p.id == professional_id && p.organization_id == organization_id)
          s.professionals)
        not_found s)
  raise_if (is_of_other_user m.user_id p.user_id) conflict
  modify (λ s. record s { professionals = update_professional p.id m.user_id s.professionals })
