-- ===== src/Access/Sessions/Entry/Active.antt =====
-- Whose sessions are issued.
use nexasalon_api.Prelude.{
  ℕ, Bool, true, false, ◌&&◌, ◌||◌, ◌≡◌, refl, ap, inl, inr, Option, none, some, List, [], ◌∷◌,
  find, any, and_right, ◌∙◌, ◌==◌, ==_refl, Bool-cases, Result, ok, err, pure, ◌>>=◌, find-test,
}
use nexasalon_api.Access.Records.{
  active, User, OrganizationMembership, Db, Security, Settings, Request, Payload, invite,
  password_reset, org_selection,
}
use nexasalon_api.Access.Members.{
  get_membership, get_by_user_and_org, list_active_for_user, get_user, get_by_email,
  is_active_member,
}
use nexasalon_api.Access.Members.Lookup.{
  get_membership_self, any-find, head_of, find-filter, any-update_found,
}
use nexasalon_api.Access.Users.{with_status}
use nexasalon_api.Access.Employees.{is_invited, is_removed}
use nexasalon_api.Access.Tokens.{create_if, get_by_hash, is_some}
use nexasalon_api.Access.Sessions.{
  SessionTokens, settled, new_token, session_tokens, issue_session_tokens,
}
use nexasalon_api.Access.Sessions.Entry.{
  LoginResult, session, select_from, session_of, issue, touch, login_choices, password_matches,
  login_user, login, claims, enter_member, select_claims, select_organization, member_of_user,
  named_member, set_password, activate, accept_user, accept_member, accept_invite, reset_user,
  reset_member, reset_password,
}

-- An active membership with this id in this organization.
abbrev pub is_active_in : ℕ → ℕ → OrganizationMembership → Bool
is_active_in membership_id organization_id m =
    (m.id == membership_id && m.organization_id == organization_id) && is_active_member m

-- A session that is issued is one of an active membership.
abbrev pub Opens : Result SessionTokens × Db → Type 0
Opens (ok tokens, s) =
    any (is_active_in tokens.membership_id tokens.organization_id) s.memberships ≡ true
Opens (err e, s) = Unit

abbrev pub LogsIn : Result LoginResult × Db → Type 0
LogsIn (ok (session tokens), s) = Opens (ok tokens, s)
LogsIn (ok (select_from token choices), s) = Unit
LogsIn (err e, s) = Unit

itself :
    (m : OrganizationMembership)
    → is_active_member m ≡ true
    → is_active_in m.id m.organization_id m ≡ true
itself m h = rw (==_refl m.id, ==_refl m.organization_id, h) refl

within :
    (m : OrganizationMembership) (organization_id : ℕ)
    → is_active_member m ≡ true
    → (m.organization_id == organization_id) ≡ true
    → is_active_in m.id organization_id m ≡ true
within m organization_id h k = rw (==_refl m.id, k, h) refl

module _ (sec : Security) (settings : Settings) where
  issue-Opens :
      (req : Request) (u organization_id membership_id : ℕ) (s : Db)
      → any (is_active_in membership_id organization_id) s.memberships ≡ true
      → Opens (issue sec settings req u organization_id membership_id s)
  unfolding issue_session_tokens
  issue-Opens req u organization_id membership_id s h =
      opens (is_some (get_by_hash (sec.hash_opaque_token req.opaque_token) s.tokens))
    where
      opens :
          (b : Bool)
          → Opens (
              settled s (
                (create_if b (new_token sec settings req u organization_id membership_id) >>= λ _.
                pure (session_tokens sec settings req u organization_id membership_id))
                  s))
      opens true = tt
      opens false = h

  session_of-LogsIn : (r : Result SessionTokens × Db) → Opens r → LogsIn (session_of r)
  session_of-LogsIn (ok tokens, s) h = h
  session_of-LogsIn (err e, s) h = tt

  choices-LogsIn :
      (req : Request) (u : User) (ms : List OrganizationMembership) (s : Db)
      → list_active_for_user u.id s ≡ ms
      → LogsIn (login_choices sec settings req u ms s)
  choices-LogsIn req u [] s h = tt
  choices-LogsIn req u (m ∷ []) s h = session_of-LogsIn _ (
      issue-Opens req u.id m.organization_id m.id (touch sec settings req u.id s) (
        any-find (λ x. x.user_id == u.id && is_active_member x)
          (is_active_in m.id m.organization_id) s.memberships found
          (itself m (
            and_right (m.user_id == u.id) (is_active_member m)
              (find-test (λ x. x.user_id == u.id && is_active_member x) s.memberships found)))))
    where
      found : find (λ x. x.user_id == u.id && is_active_member x) s.memberships ≡ some m
      found =
          find-filter (λ x. x.user_id == u.id && is_active_member x) s.memberships ∙ ap head_of h
  choices-LogsIn req u (m ∷ n ∷ ms) s h = tt

  user-LogsIn :
      (req : Request) (password : ℕ) (o : Option User) (s : Db)
      → LogsIn (login_user sec settings req password o s)
  user-LogsIn req password none s = tt
  user-LogsIn req password (some u) s =
      elim (Bool-cases (password_matches sec settings password u.password_hash && u.is_active)) [
        | inl e ↦ rw e (choices-LogsIn req u (list_active_for_user u.id s) s refl)
        | inr e ↦ rw e tt
      ]

  select-Opens :
      (req : Request) (organization_id : ℕ) (o : Option Payload) (s : Db)
      → Opens (select_claims sec settings req organization_id o s)
  select-Opens req organization_id none s = tt
  select-Opens req organization_id (some p) s =
      enter (get_by_user_and_org p.sub organization_id s) refl
    where
      enter :
          (o : Option OrganizationMembership)
          → get_by_user_and_org p.sub organization_id s ≡ o
          → Opens (enter_member sec settings req p.sub organization_id o s)
      enter none h = tt
      enter (some m) h = elim (Bool-cases (is_active_member m)) [
        | inr e ↦ rw e tt
        | inl e ↦ rw e (
            issue-Opens req p.sub organization_id m.id s (
              any-find (λ x. x.user_id == p.sub && x.organization_id == organization_id)
                (is_active_in m.id organization_id) s.memberships h
                (within m organization_id e (
                  and_right (m.user_id == p.sub) (m.organization_id == organization_id) (
                    find-test (λ x. x.user_id == p.sub && x.organization_id == organization_id)
                      s.memberships h)))))
      ]

  accept-Opens :
      (req : Request) (password : ℕ) (o : Option OrganizationMembership) (s : Db)
      → ((m : OrganizationMembership) → o ≡ some m → get_membership m.id s ≡ some m)
      → Opens (accept_member sec settings req password o s)
  accept-Opens req password none s h = tt
  accept-Opens req password (some m) s h = elim (Bool-cases (is_invited m.status)) [
    | inr e ↦ rw e tt
    | inl e ↦ rw e (with_user (get_user m.user_id s))
  ]
    where
      with_user : (o : Option User) → Opens (accept_user sec settings req password m o s)
      with_user none = tt
      with_user (some u) =
          issue-Opens req m.user_id m.organization_id m.id
            (activate sec settings m.id (set_password sec settings u.id password s))
            (any-update_found m.id (with_status active) (is_active_in m.id m.organization_id)
              s.memberships (h m refl) (itself (with_status active m) refl))

  reset-Opens :
      (req : Request) (password : ℕ) (o : Option OrganizationMembership) (s : Db)
      → ((m : OrganizationMembership) → o ≡ some m → get_membership m.id s ≡ some m)
      → Opens (reset_member sec settings req password o s)
  reset-Opens req password none s h = tt
  reset-Opens req password (some m) s h =
      elim (Bool-cases (is_invited m.status || is_removed m.status)) [
        | inl e ↦ rw e tt
        | inr e ↦ rw e (with_user (get_user m.user_id s))
      ]
    where
      with_user : (o : Option User) → Opens (reset_user sec settings req password m o s)
      with_user none = tt
      with_user (some u) = elim (Bool-cases (is_active_member m)) [
        | inr e ↦ rw e tt
        | inl e ↦ rw e (
            issue-Opens req m.user_id m.organization_id m.id
              (set_password sec settings u.id password s)
              (any-find (λ x. x.id == m.id) (is_active_in m.id m.organization_id) s.memberships
                (h m refl) (itself m e)))
      ]

  named_member_self :
      (o : Option Payload) (s : Db) (m : OrganizationMembership)
      → named_member sec settings o s ≡ some m
      → get_membership m.id s ≡ some m
  named_member_self none s m = λ h. cc
  named_member_self (some p) s m = by_claim p.membership_id
    where
      by_user :
          (id : ℕ) (o : Option OrganizationMembership)
          → get_membership id s ≡ o
          → member_of_user sec settings p.sub o ≡ some m
          → get_membership m.id s ≡ some m
      by_user id none f = λ h. cc
      by_user id (some x) f = elim (Bool-cases (x.user_id == p.sub)) [
        | inl e ↦ rw e (λ h. get_membership_self id s (f ∙ h))
        | inr e ↦ rw e (λ h. cc)
      ]

      by_claim :
          (c : Option ℕ)
          → (elim c [
            | none ↦ none
            | some id ↦ member_of_user sec settings p.sub (get_membership id s)
          ])
            ≡ some m
          → get_membership m.id s ≡ some m
      by_claim none h = cc
      by_claim (some id) h = by_user id (get_membership id s) refl h

  -- A session that begins by a login, by the choice of an organization, by accepting an invitation or
  -- by setting a password anew is one of a membership that is active, in the organization that the
  -- session is for.
  pub session_active :
      (req : Request) (token organization_id email password : ℕ) (s : Db)
      → LogsIn (login sec settings req email password s)
        × Opens (select_organization sec settings req token organization_id s)
        × Opens (accept_invite sec settings req token password s)
        × Opens (reset_password sec settings req token password s)
  unfolding login select_organization accept_invite reset_password
  session_active req token organization_id email password s = (
    user-LogsIn req password (get_by_email email s) s,
    select-Opens req organization_id (claims sec settings org_selection (sec.decode req.now token))
        s,
    accept-Opens req password
        (named_member sec settings (claims sec settings invite (sec.decode req.now token)) s) s
        (named_member_self (claims sec settings invite (sec.decode req.now token)) s),
    reset-Opens req password
        (named_member sec settings (claims sec settings password_reset (sec.decode req.now token))
          s)
        s (named_member_self (claims sec settings password_reset (sec.decode req.now token)) s),
  )
