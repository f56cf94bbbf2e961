-- ===== src/Access/Tokens.antt =====
-- repositories/refresh_token_repo.py. A token is a row, which its digest identifies: the column is
-- unique, so a second row with the same digest is refused by the database. New rows come last.
pub mod Lookup
use nexasalon_api.Prelude.{
  ℕ, Bool, true, false, ◌&&◌, not, Option, none, some, List, [], ◌∷◌, ◌++◌, map, find, filter,
  length, ◌==◌, if◌then◌else◌, Tx, ok, err, integrity, suc,
}
use nexasalon_api.Access.Records.{RefreshToken, Db}

abbrev pub is_some {ℓ} : {A : Type ℓ} → Option A → Bool
is_some none = false
is_some (some _) = true

abbrev pub get_by_hash : ℕ → List RefreshToken → Option RefreshToken
get_by_hash token_hash ts = find (λ t. t.token_hash == token_hash) ts

-- The row that `get_by_hash` gives is written.
abbrev pub update_token : ℕ → (RefreshToken → RefreshToken) → List RefreshToken → List RefreshToken
update_token token_hash f [] = []
update_token token_hash f (t ∷ ts) =
    if t.token_hash == token_hash then f t ∷ ts else t ∷ update_token token_hash f ts

abbrev pub revoked : ℕ → RefreshToken → RefreshToken
revoked now t = record t { revoked_at = some now }

abbrev pub rotated : ℕ → ℕ → RefreshToken → RefreshToken
rotated now new_id t = record t { revoked_at = some now; replaced_by_id = some new_id }

-- The columns of a new row.
pub record NewToken : Type 0 where
  pub user_id : ℕ
  pub organization_id : ℕ
  pub membership_id : ℕ
  pub token_hash : ℕ
  pub issued_at : ℕ
  pub expires_at : ℕ

abbrev pub new_row : ℕ → NewToken → RefreshToken
new_row id n = record {
  id = id;
  user_id = n.user_id;
  organization_id = n.organization_id;
  membership_id = n.membership_id;
  token_hash = n.token_hash;
  issued_at = n.issued_at;
  expires_at = n.expires_at;
  revoked_at = none;
  replaced_by_id = none;
}

abbrev pub create_if : Bool → NewToken → Tx Db RefreshToken
create_if true n s = err integrity
create_if false n s = ok (
  new_row s.next_id n,
  record s { tokens = s.tokens ++ new_row s.next_id n ∷ []; next_id = suc s.next_id },
)

abbrev pub create : NewToken → Tx Db RefreshToken
create n s = create_if (is_some (get_by_hash n.token_hash s.tokens)) n s

abbrev pub revoke : ℕ → ℕ → Db → Db
revoke token_hash now s = record s { tokens = update_token token_hash (revoked now) s.tokens }

abbrev pub mark_rotated : ℕ → ℕ → ℕ → Db → Db
mark_rotated token_hash new_id now s = record s {
  tokens = update_token token_hash (rotated now new_id) s.tokens;
}

-- The active tokens of a user.
abbrev pub is_active_of : ℕ → RefreshToken → Bool
is_active_of user_id t = t.user_id == user_id && not (is_some t.revoked_at)

abbrev pub revoke_if_active : ℕ → ℕ → RefreshToken → RefreshToken
revoke_if_active user_id now t = if is_active_of user_id t then revoked now t else t

abbrev pub revoke_all_for_user : ℕ → ℕ → Db → Db
revoke_all_for_user user_id now s = record s {
  tokens = map (revoke_if_active user_id now) s.tokens;
}
