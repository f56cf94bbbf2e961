-- ===== src/Access/Sessions.antt =====
-- services/auth.py, with the tokens of core/security.py. These calls open their own transactions:
-- `refresh` commits also where it raises, so a call gives an answer and a state, whatever the
-- answer is. The row-level security of the database shows a user's own memberships to each of the
-- queries below, which ask for nothing else.
pub mod Tickets
pub mod Rotation
pub mod Traces
pub mod Entry
use nexasalon_api.Prelude.{
  ℕ, Bool, true, false, not, ◌&&◌, ◌+◌, Option, none, some, List, [], ◌∷◌, find, leb, ◌==◌,
  if◌then◌else◌, Tx, Result, Error, ok, err, unauthorized, forbidden, pure, modify, ◌>>=◌, ◌>>◌,
}
use nexasalon_api.Access.Records.{
  OrganizationMembership, User, RefreshToken, Db, Security, Settings, Request, Payload, TokenType,
}
use nexasalon_api.Access.Tokens.{
  NewToken, get_by_hash, create, revoke, mark_rotated, revoke_all_for_user, is_some,
}
use nexasalon_api.Access.Members.{get_membership, is_active_member}

-- The answer of a call that opens its own transactions, and what it left committed.
abbrev pub Session : Type 0 → Type 0
Session A = Db → Result A × Db

abbrev pub settled : {A : Type 0} → Db → Result (A × Db) → Result A × Db
settled s (ok (a, s')) = (ok a, s')
settled s (err e) = (err e, s)

-- One transaction, rolled back where it raises.
abbrev pub atomic : {A : Type 0} → Tx Db A → Session A
atomic m s = settled s (m s)

-- A commit, then a raise.
abbrev pub refuse : {A : Type 0} → Error → Session A
refuse e s = (err e, s)

pub record SessionTokens : Type 0 where
  pub access_token : ℕ
  pub refresh_token : ℕ
  pub organization_id : ℕ
  pub membership_id : ℕ

module _ (sec : Security) (settings : Settings) where
  abbrev pub create_access_token : Request → ℕ → ℕ → ℕ → ℕ
  create_access_token req user_id organization_id membership_id = sec.encode (record {
    sub = user_id;
    org_id = some organization_id;
    membership_id = some membership_id;
    type_of = TokenType.access;
    jti = req.jti;
    iat = req.now;
    exp = req.now + settings.access_token_ttl;
  })

  abbrev pub session_tokens : Request → ℕ → ℕ → ℕ → SessionTokens
  session_tokens req user_id organization_id membership_id = record {
    access_token = create_access_token req user_id organization_id membership_id;
    refresh_token = req.opaque_token;
    organization_id = organization_id;
    membership_id = membership_id;
  }

  -- The columns of the new refresh token.
  abbrev pub new_token : Request → ℕ → ℕ → ℕ → NewToken
  new_token req user_id organization_id membership_id = record {
    user_id = user_id;
    organization_id = organization_id;
    membership_id = membership_id;
    token_hash = sec.hash_opaque_token req.opaque_token;
    issued_at = req.now;
    expires_at = req.now + settings.refresh_token_ttl;
  }

  unfoldable pub issue_session_tokens : Request → ℕ → ℕ → ℕ → Tx Db SessionTokens
  issue_session_tokens req user_id organization_id membership_id = do
    _ ← create (new_token req user_id organization_id membership_id)
    pure (session_tokens req user_id organization_id membership_id)

  -- The new token replaces the one presented, in one transaction.
  abbrev pub rotate : Request → RefreshToken → ℕ → Tx Db SessionTokens
  rotate req token membership_id = do
    row ← create (new_token req token.user_id token.organization_id membership_id)
    modify (mark_rotated token.token_hash row.id req.now)
    pure (session_tokens req token.user_id token.organization_id membership_id)

  -- The membership is that of the token, and active.
  abbrev pub is_valid_for : RefreshToken → OrganizationMembership → Bool
  is_valid_for token m =
      (m.organization_id == token.organization_id && m.user_id == token.user_id)
      && is_active_member m

  abbrev pub refresh_valid : Bool → Request → RefreshToken → ℕ → Session SessionTokens
  refresh_valid true req token membership_id s = atomic (rotate req token membership_id) s
  refresh_valid false req token membership_id s = refuse forbidden s

  abbrev pub refresh_member :
      Request → RefreshToken → Option OrganizationMembership → Session SessionTokens
  refresh_member req token none s = refuse forbidden s
  refresh_member req token (some m) s = refresh_valid (is_valid_for token m) req token m.id s

  abbrev pub refresh_late : Bool → Request → RefreshToken → Session SessionTokens
  refresh_late true req token s = refuse unauthorized s
  refresh_late false req token s = refresh_member req token (get_membership token.membership_id s) s

  -- A token that was revoked ends all the sessions of its user.
  abbrev pub refresh_if : Bool → Request → RefreshToken → Session SessionTokens
  refresh_if true req token s = (err unauthorized, revoke_all_for_user token.user_id req.now s)
  refresh_if false req token s = refresh_late (leb token.expires_at req.now) req token s

  abbrev pub refresh_found : Request → Option RefreshToken → Session SessionTokens
  refresh_found req none s = refuse unauthorized s
  refresh_found req (some token) s = refresh_if (is_some token.revoked_at) req token s

  unfoldable pub refresh : Request → ℕ → Session SessionTokens
  refresh req raw_refresh_token s =
      refresh_found req (get_by_hash (sec.hash_opaque_token raw_refresh_token) s.tokens) s

  abbrev pub logout_found : Request → Option RefreshToken → Session (Unit {0})
  logout_found req none s = (ok tt, s)
  logout_found req (some token) s =
      if is_some token.revoked_at then (ok tt, s) else (ok tt, revoke token.token_hash req.now s)

  unfoldable pub logout : Request → ℕ → Session (Unit {0})
  logout req raw_refresh_token s =
      logout_found req (get_by_hash (sec.hash_opaque_token raw_refresh_token) s.tokens) s
