-- ===== src/Access/Sessions/Tickets.antt =====
-- What the table of refresh tokens promises, without its rows: digests name tickets, a ticket is
-- live until it is exchanged or its user's tickets are all ended, and it never comes back.
use nexasalon_api.Prelude.{
  ℕ, Bool, false, not, ◌≡◌, refl, ◌∙◌, ap, inl, inr, Option, none, some, List, [], ◌∷◌, ◌++◌, map,
  ◌==◌, if◌then◌else◌, Bool-cases, Option-cases, ==_iff,
}
use mathlib.Core.Option as Option
use nexasalon_api.Access.Records.{RefreshToken}
use nexasalon_api.Access.Tokens.{
  get_by_hash, update_token, is_some, revoked, rotated, revoke_if_active, is_active_of,
}
use nexasalon_api.Access.Tokens.Lookup.{
  or_else, get_by_hash-append, get_by_hash-map, get_by_hash-update_token,
}

pub record Ticket : Type 0 where
  pub user_id : ℕ
  pub organization_id : ℕ
  pub membership_id : ℕ
  pub expires_at : ℕ
  pub is_live : Bool

abbrev pub Store : Type 0
Store = ℕ → Option Ticket

abbrev pub ticket_of : RefreshToken → Ticket
ticket_of t = record {
  user_id = t.user_id;
  organization_id = t.organization_id;
  membership_id = t.membership_id;
  expires_at = t.expires_at;
  is_live = not (is_some t.revoked_at);
}

-- The store that a table stands for.
abbrev pub view : List RefreshToken → Store
view ts h = Option.map ticket_of (get_by_hash h ts)

abbrev pub ended : Ticket → Ticket
ended x = record x { is_live = false }

abbrev pub end_of : ℕ → Ticket → Ticket
end_of user_id x = if x.user_id == user_id then ended x else x

-- All tickets of a user end.
abbrev pub end_all : ℕ → Store → Store
end_all user_id store h = Option.map (end_of user_id) (store h)

abbrev pub or_ticket : Option Ticket → Option Ticket → Option Ticket
or_ticket none b = b
or_ticket (some a) b = some a

-- One ticket ends and another takes its place.
abbrev pub exchange : ℕ → ℕ → Ticket → Store → Store
exchange old new ticket store h =
    if h == old
    then Option.map ended (store h)
    else or_ticket (store h) (if new == h then some ticket else none)

ticket_of-revoke_if_active :
    (user_id now : ℕ) (t : RefreshToken)
    → ticket_of (revoke_if_active user_id now t) ≡ end_of user_id (ticket_of t)
ticket_of-revoke_if_active user_id now t = elim (Bool-cases (t.user_id == user_id)) [
  | inl e ↦ elim (Option-cases t.revoked_at) [
    | inl g ↦ rw (e, g) refl
    | inr (at, g) ↦ rw (e, g) refl
  ]
  | inr e ↦ rw e refl
]

map_ended :
    (user_id now : ℕ) (o : Option RefreshToken)
    → Option.map ticket_of (Option.map (revoke_if_active user_id now) o)
      ≡ Option.map (end_of user_id) (Option.map ticket_of o)
map_ended user_id now none = refl
map_ended user_id now (some t) = ap some (ticket_of-revoke_if_active user_id now t)

revoke_if_active_hash :
    (user_id now : ℕ) (t : RefreshToken)
    → (revoke_if_active user_id now t).token_hash ≡ t.token_hash
revoke_if_active_hash user_id now t = elim (Bool-cases (is_active_of user_id t)) [
  | inl e ↦ rw e refl
  | inr e ↦ rw e refl
]

pub view-end_all :
    (user_id now : ℕ) (ts : List RefreshToken) (h : ℕ)
    → view (map (revoke_if_active user_id now) ts) h ≡ end_all user_id (view ts) h
view-end_all user_id now ts h =
    ap (Option.map ticket_of)
      (get_by_hash-map h (revoke_if_active user_id now) ts (revoke_if_active_hash user_id now))
    ∙ map_ended user_id now (get_by_hash h ts)

pub view-end :
    (old now : ℕ) (ts : List RefreshToken) (h : ℕ)
    → view (update_token old (revoked now) ts) h
      ≡ (if h == old then Option.map ended (view ts h) else view ts h)
view-end old now ts h = elim (Bool-cases (h == old)) [
  | inl e ↦
      rw (get_by_hash-update_token h old (revoked now) ts (λ t. refl), e)
        (map_twice (get_by_hash h ts))
  | inr e ↦ rw (get_by_hash-update_token h old (revoked now) ts (λ t. refl), e) refl
]
  where
    map_twice :
        (o : Option RefreshToken)
        → Option.map ticket_of (Option.map (revoked now) o)
          ≡ Option.map ended (Option.map ticket_of o)
    map_twice none = refl
    map_twice (some t) = refl

pub view-add :
    (ts : List RefreshToken) (t : RefreshToken) (h : ℕ)
    → view (ts ++ t ∷ []) h
      ≡ or_ticket (view ts h) (if t.token_hash == h then some (ticket_of t) else none)
view-add ts t h = ap (Option.map ticket_of) (get_by_hash-append h ts t) ∙ added (get_by_hash h ts)
  where
    added :
        (o : Option RefreshToken)
        → Option.map ticket_of (or_else o (if t.token_hash == h then some t else none))
          ≡ or_ticket
              (Option.map ticket_of o)
              (if t.token_hash == h then some (ticket_of t) else none)
    added none = elim (Bool-cases (t.token_hash == h)) [ inl e ↦ rw e refl | inr e ↦ rw e refl ]
    added (some x) = refl

pub view-exchange :
    (old now new_id : ℕ) (ts : List RefreshToken) (t row : RefreshToken) (h : ℕ)
    → get_by_hash old ts ≡ some t
    → view (update_token old (rotated now new_id) (ts ++ row ∷ [])) h
      ≡ exchange old row.token_hash (ticket_of row) (view ts) h
view-exchange old now new_id ts t row h found = elim (Bool-cases (h == old)) [
  | inl e ↦
      rw
        (
          get_by_hash-update_token h old (rotated now new_id) (ts ++ row ∷ []) (λ x. refl),
          e,
          get_by_hash-append h ts row,
          ap (λ k. get_by_hash k ts) ((==_iff h old).0 e) ∙ found,
        )
        refl
  | inr e ↦
      rw (get_by_hash-update_token h old (rotated now new_id) (ts ++ row ∷ []) (λ x. refl), e)
        (view-add ts row h)
]
