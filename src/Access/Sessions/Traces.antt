-- ===== src/Access/Sessions/Traces.antt =====
-- Sequences of calls on the sessions: the refreshes, the logouts, the sessions that are issued at
-- login, and whatever happens to the memberships between them.
pub mod Once
pub mod Reuse
use nexasalon_api.Prelude.{
  ℕ, suc, ◌+◌, ◌≤◌, Bool, true, false, not, ◌≡◌, ◌≢◌, refl, sym, ◌∙◌, ap, subst, inl, inr, Option,
  none, some, List, [], ◌∷◌, ◌==◌, if◌then◌else◌, Bool-cases, Option-cases, Result, ok, err,
  unauthorized, arith, All, pure, ◌>>=◌, leb, ==_iff, ==_refl, not-false, not-true, some-injective,
}
use mathlib.Core.Option as Option
use nexasalon_api.Access.Records.{
  OrganizationMembership, RefreshToken, Db, Security, Settings, Request,
}
use nexasalon_api.Access.Tokens.{get_by_hash, is_some, create_if}
use nexasalon_api.Access.Sessions.{
  SessionTokens, refresh, logout, logout_found, issue_session_tokens, atomic, settled, new_token,
  session_tokens,
}
use nexasalon_api.Access.Sessions.Tickets.{
  Ticket, Store, ticket_of, view, ended, end_of, end_all, exchange, or_ticket, view-end, view-add,
}
use nexasalon_api.Access.Sessions.Rotation.{
  refresh-spec_refresh, spec_refresh, spec_found, spec_if, spec_late, spec_valid, spec_taken,
  is_valid_of, new_hash,
}
use nexasalon_api.Access.Members.{get_membership}

pub data SessionCall : Type 0 where
  refreshes logs_out : Request → ℕ → SessionCall
  issues : Request → ℕ → ℕ → ℕ → SessionCall
  changes : List OrganizationMembership → SessionCall

abbrev pub is_ok : {A : Type 0} → Result A → Bool
is_ok (ok a) = true
is_ok (err e) = false

-- A ticket was there and is live no more.
abbrev pub is_spent : Option Ticket → Bool
is_spent none = false
is_spent (some x) = not x.is_live

pub is_spent-end_of :
    (u : ℕ) (o : Option Ticket) → is_spent o ≡ true → is_spent (Option.map (end_of u) o) ≡ true
is_spent-end_of u none h = h
is_spent-end_of u (some x) h = elim (Bool-cases (x.user_id == u)) [
  | inl e ↦ rw e refl
  | inr e ↦ rw e h
]

is_spent-ended : (o : Option Ticket) → is_spent o ≡ true → is_spent (Option.map ended o) ≡ true
is_spent-ended none h = h
is_spent-ended (some x) h = refl

is_spent-or_ticket : (o p : Option Ticket) → is_spent o ≡ true → is_spent (or_ticket o p) ≡ true
is_spent-or_ticket none p h = cc
is_spent-or_ticket (some x) p h = h

is_spent-exchange :
    (old new : ℕ) (x : Ticket) (store : Store) (h : ℕ)
    → is_spent (store h) ≡ true
    → is_spent (exchange old new x store h) ≡ true
is_spent-exchange old new x store h e = elim (Bool-cases (h == old)) [
  | inl g ↦ rw g (is_spent-ended (store h) e)
  | inr g ↦ rw g (is_spent-or_ticket (store h) (if new == h then some x else none) e)
]

module _ (sec : Security) (settings : Settings) where
  abbrev pub after : SessionCall → Db → Db
  after (refreshes req raw) s = (refresh sec settings req raw s).1
  after (logs_out req raw) s = (logout sec settings req raw s).1
  after (issues req user_id organization_id membership_id) s =
      (atomic (issue_session_tokens sec settings req user_id organization_id membership_id) s).1
  after (changes ms) s = record s { memberships = ms }

  abbrev pub run : List SessionCall → Db → Db
  run [] s = s
  run (c ∷ cs) s = run cs (after c s)

  -- A refresh with the raw token that succeeds.
  abbrev pub use_of : ℕ → SessionCall → Db → ℕ
  use_of raw (refreshes req r) s =
      if r == raw then (if is_ok (refresh sec settings req r s).0 then 1 else 0) else 0
  use_of raw (logs_out req r) s = 0
  use_of raw (issues req user_id organization_id membership_id) s = 0
  use_of raw (changes ms) s = 0

  abbrev pub uses : ℕ → List SessionCall → Db → ℕ
  uses raw [] s = 0
  uses raw (c ∷ cs) s = use_of raw c s + uses raw cs (after c s)

  is_spent-spec_taken :
      (b : Bool) (req : Request) (old : ℕ) (x : Ticket) (store : Store) (h : ℕ)
      → is_spent (store h) ≡ true
      → is_spent ((spec_taken sec settings b req old x store).1 h) ≡ true
  is_spent-spec_taken true req old x store h e = e
  is_spent-spec_taken false req old x store h e = is_spent-exchange old _ _ store h e

  is_spent-spec_valid :
      (b : Bool) (req : Request) (old : ℕ) (x : Ticket) (store : Store) (h : ℕ)
      → is_spent (store h) ≡ true
      → is_spent ((spec_valid sec settings b req old x store).1 h) ≡ true
  is_spent-spec_valid true req old x store h e = is_spent-spec_taken _ req old x store h e
  is_spent-spec_valid false req old x store h e = e

  is_spent-spec_late :
      (b : Bool) (req : Request) (old : ℕ) (s : Db) (x : Ticket) (store : Store) (h : ℕ)
      → is_spent (store h) ≡ true
      → is_spent ((spec_late sec settings b req old s x store).1 h) ≡ true
  is_spent-spec_late true req old s x store h e = e
  is_spent-spec_late false req old s x store h e = is_spent-spec_valid _ req old x store h e

  is_spent-spec_if :
      (b : Bool) (req : Request) (old : ℕ) (s : Db) (x : Ticket) (store : Store) (h : ℕ)
      → is_spent (store h) ≡ true
      → is_spent ((spec_if sec settings b req old s x store).1 h) ≡ true
  is_spent-spec_if true req old s x store h e = is_spent-spec_late _ req old s x store h e
  is_spent-spec_if false req old s x store h e = is_spent-end_of x.user_id (store h) e

  is_spent-spec_found :
      (o : Option Ticket) (req : Request) (old : ℕ) (s : Db) (store : Store) (h : ℕ)
      → is_spent (store h) ≡ true
      → is_spent ((spec_found sec settings req old s o store).1 h) ≡ true
  is_spent-spec_found none req old s store h e = e
  is_spent-spec_found (some x) req old s store h e =
      is_spent-spec_if x.is_live req old s x store h e

  is_spent-logout :
      (req : Request) (o : Option RefreshToken) (s : Db) (h : ℕ)
      → is_spent (view s.tokens h) ≡ true
      → is_spent (view ((logout_found sec settings req o s).1).tokens h) ≡ true
  is_spent-logout req none s h e = e
  is_spent-logout req (some t) s h e = elim (Bool-cases (is_some t.revoked_at)) [
    | inl g ↦ rw g e
    | inr g ↦ rw g (elim (Bool-cases (h == t.token_hash)) [
      | inl f ↦
          rw (view-end t.token_hash req.now s.tokens h, f) (is_spent-ended (view s.tokens h) e)
      | inr f ↦ rw (view-end t.token_hash req.now s.tokens h, f) e
    ])
  ]

  is_spent-issued :
      (b : Bool) (req : Request) (u o m : ℕ) (s : Db) (h : ℕ)
      → is_spent (view s.tokens h) ≡ true
      → is_spent (
          view
            ((settled s (
                (create_if b (new_token sec settings req u o m) >>= λ _.
                pure (session_tokens sec settings req u o m))
                  s)).1
              ).tokens
            h)
        ≡ true
  is_spent-issued true req u o m s h e = e
  is_spent-issued false req u o m s h e =
      rw (view-add s.tokens _ h) (is_spent-or_ticket (view s.tokens h) _ e)

  pub is_spent-after :
      (c : SessionCall) (s : Db) (h : ℕ)
      → is_spent (view s.tokens h) ≡ true
      → is_spent (view (after c s).tokens h) ≡ true
  unfolding logout issue_session_tokens
  is_spent-after (refreshes req raw) s h e =
      rw ((refresh-spec_refresh sec settings req raw s).1 h) (
        is_spent-spec_found (view s.tokens (sec.hash_opaque_token raw)) req
          (sec.hash_opaque_token raw) s (view s.tokens) h e)
  is_spent-after (logs_out req raw) s h e =
      is_spent-logout req (get_by_hash (sec.hash_opaque_token raw) s.tokens) s h e
  is_spent-after (issues req u o m) s h e =
      is_spent-issued (is_some (get_by_hash (sec.hash_opaque_token req.opaque_token) s.tokens)) req
        u o m s h e
  is_spent-after (changes ms) s h e = e
