-- ===== src/Access/Sessions/Traces/Reuse.antt =====
-- What presenting a token twice does to the other sessions of its user.
use nexasalon_api.Prelude.{
  ℕ, Bool, true, false, not, ◌≡◌, refl, subst, inl, inr, Option, none, some, List, [], ◌∷◌, ◌==◌,
  if◌then◌else◌, Bool-cases, err, unauthorized, arith, All, pure, ◌>>=◌, leb, not-true,
}
use mathlib.Core.Option as Option
use nexasalon_api.Access.Records.{RefreshToken, Db, Security, Settings, Request}
use nexasalon_api.Access.Tokens.{get_by_hash, is_some, create_if}
use nexasalon_api.Access.Sessions.{
  refresh, logout, logout_found, issue_session_tokens, settled, new_token, session_tokens,
}
use nexasalon_api.Access.Sessions.Tickets.{
  Ticket, Store, view, ended, end_of, end_all, exchange, or_ticket, view-end, view-add,
}
use nexasalon_api.Access.Sessions.Rotation.{
  refresh-spec_refresh, spec_found, spec_if, spec_late, spec_valid, spec_taken,
}
use nexasalon_api.Access.Sessions.Traces.{
  SessionCall, refreshes, logs_out, issues, changes, is_spent, after, run,
}
use nexasalon_api.Access.Sessions.Traces.Once.{refresh-spent}

-- A ticket of the user is not live.
abbrev pub is_over : ℕ → Option Ticket → Bool
is_over u none = true
is_over u (some x) = if x.user_id == u then not x.is_live else true

-- No ticket of the user is live.
abbrev pub AllOver : ℕ → Store → Type 0
AllOver u store = (h : ℕ) → is_over u (store h) ≡ true

is_over-ended : (u : ℕ) (o : Option Ticket) → is_over u (Option.map ended o) ≡ true
is_over-ended u none = refl
is_over-ended u (some x) = ground arith

is_over-end_of :
    (u v : ℕ) (o : Option Ticket) → is_over u o ≡ true → is_over u (Option.map (end_of v) o) ≡ true
is_over-end_of u v none h = h
is_over-end_of u v (some x) h = elim (Bool-cases (x.user_id == v)) [
  | inl e ↦ rw e (is_over-ended u (some x))
  | inr e ↦ rw e h
]

-- Ending all tickets of a user does that.
end_all-AllOver : (u : ℕ) (store : Store) → AllOver u (end_all u store)
end_all-AllOver u store h = over (store h)
  where
    over : (o : Option Ticket) → is_over u (Option.map (end_of u) o) ≡ true
    over none = refl
    over (some x) = elim (Bool-cases (x.user_id == u)) [
      | inl e ↦ rw (e, e) refl
      | inr e ↦ rw (e, e) refl
    ]

is_over-or_ticket :
    (u : ℕ) (x : Ticket) (b : Bool) (o : Option Ticket)
    → is_over u o ≡ true
    → (x.user_id == u) ≡ false
    → is_over u (or_ticket o (if b then some x else none)) ≡ true
is_over-or_ticket u x true none e f = rw f refl
is_over-or_ticket u x false none e f = refl
is_over-or_ticket u x b (some y) e f = e

is_over-exchange :
    (u old new : ℕ) (x : Ticket) (store : Store) (h : ℕ)
    → AllOver u store
    → (x.user_id == u) ≡ false
    → is_over u (exchange old new x store h) ≡ true
is_over-exchange u old new x store h e f = elim (Bool-cases (h == old)) [
  | inl g ↦ rw g (is_over-ended u (store h))
  | inr g ↦ rw g (is_over-or_ticket u x (new == h) (store h) (e h) f)
]

-- A live ticket is of another user.
other_user :
    (u : ℕ) (x : Ticket) → x.is_live ≡ true → is_over u (some x) ≡ true → (x.user_id == u) ≡ false
other_user u x l h = ground arith

over_spent :
    (u : ℕ) (y : Ticket) → is_over u (some y) ≡ true → y.user_id ≡ u → is_spent (some y) ≡ true
over_spent u y h e = ground arith

module _ (sec : Security) (settings : Settings) where
  AllOver-spec_taken :
      (b : Bool) (u : ℕ) (req : Request) (old : ℕ) (x : Ticket) (store : Store)
      → AllOver u store
      → (x.user_id == u) ≡ false
      → AllOver u (spec_taken sec settings b req old x store).1
  AllOver-spec_taken true u req old x store e f h = e h
  AllOver-spec_taken false u req old x store e f h = is_over-exchange u old _ _ store h e f

  AllOver-spec_valid :
      (b : Bool) (u : ℕ) (req : Request) (old : ℕ) (x : Ticket) (store : Store)
      → AllOver u store
      → (x.user_id == u) ≡ false
      → AllOver u (spec_valid sec settings b req old x store).1
  AllOver-spec_valid true u req old x store e f = AllOver-spec_taken _ u req old x store e f
  AllOver-spec_valid false u req old x store e f = e

  AllOver-spec_late :
      (b : Bool) (u : ℕ) (req : Request) (old : ℕ) (s : Db) (x : Ticket) (store : Store)
      → AllOver u store
      → (x.user_id == u) ≡ false
      → AllOver u (spec_late sec settings b req old s x store).1
  AllOver-spec_late true u req old s x store e f = e
  AllOver-spec_late false u req old s x store e f = AllOver-spec_valid _ u req old x store e f

  AllOver-spec_found :
      (o : Option Ticket) (u : ℕ) (req : Request) (old : ℕ) (s : Db) (store : Store)
      → store old ≡ o
      → AllOver u store
      → AllOver u (spec_found sec settings req old s o store).1
  AllOver-spec_found none u req old s store f e = e
  AllOver-spec_found (some x) u req old s store f e = by_live x.is_live refl
    where
      by_live : (b : Bool) → x.is_live ≡ b → AllOver u (spec_if sec settings b req old s x store).1
      by_live true l h =
          AllOver-spec_late (leb x.expires_at req.now) u req old s x store e
            (other_user u x l (subst (λ o. is_over u o ≡ true) f (e old))) h
      by_live false l h = is_over-end_of u x.user_id (store h) (e h)

  AllOver-logout :
      (u : ℕ) (req : Request) (o : Option RefreshToken) (s : Db)
      → AllOver u (view s.tokens)
      → AllOver u (view ((logout_found sec settings req o s).1).tokens)
  AllOver-logout u req none s e h = e h
  AllOver-logout u req (some t) s e h = elim (Bool-cases (is_some t.revoked_at)) [
    | inl g ↦ rw g (e h)
    | inr g ↦ rw g (elim (Bool-cases (h == t.token_hash)) [
      | inl f ↦ rw (view-end t.token_hash req.now s.tokens h, f) (is_over-ended u (view s.tokens h))
      | inr f ↦ rw (view-end t.token_hash req.now s.tokens h, f) (e h)
    ])
  ]

  AllOver-issued :
      (b : Bool) (u : ℕ) (req : Request) (v o m : ℕ) (s : Db)
      → AllOver u (view s.tokens)
      → (v == u) ≡ false
      → AllOver u (
          view
            ((settled s (
                (create_if b (new_token sec settings req v o m) >>= λ _.
                pure (session_tokens sec settings req v o m))
                  s)).1
              ).tokens)
  AllOver-issued true u req v o m s e f h = e h
  AllOver-issued false u req v o m s e f h =
      rw (view-add s.tokens _ h) (is_over-or_ticket u _ _ (view s.tokens h) (e h) f)

  -- The call issues no session to the user.
  abbrev pub spares : ℕ → SessionCall → Bool
  spares u (issues req v o m) = not (v == u)
  spares u (refreshes req raw) = true
  spares u (logs_out req raw) = true
  spares u (changes ms) = true

  AllOver-after :
      (u : ℕ) (c : SessionCall) (s : Db)
      → AllOver u (view s.tokens)
      → spares u c ≡ true
      → AllOver u (view (after sec settings c s).tokens)
  unfolding logout issue_session_tokens
  AllOver-after u (refreshes req raw) s e f h =
      rw ((refresh-spec_refresh sec settings req raw s).1 h) (
        AllOver-spec_found (view s.tokens (sec.hash_opaque_token raw)) u req
          (sec.hash_opaque_token raw) s (view s.tokens) refl e h)
  AllOver-after u (logs_out req raw) s e f h =
      AllOver-logout u req (get_by_hash (sec.hash_opaque_token raw) s.tokens) s e h
  AllOver-after u (issues req v o m) s e f h =
      AllOver-issued (is_some (get_by_hash (sec.hash_opaque_token req.opaque_token) s.tokens)) u req
        v o m s e (not-true (v == u) f) h
  AllOver-after u (changes ms) s e f h = e h

  AllOver-run :
      (u : ℕ) (calls : List SessionCall) (s : Db)
      → All (λ c. spares u c ≡ true) calls
      → AllOver u (view s.tokens)
      → AllOver u (view (run sec settings calls s).tokens)
  AllOver-run u [] s f e = e
  AllOver-run u (c ∷ cs) s f e =
      AllOver-run u cs (after sec settings c s) f.1 (AllOver-after u c s e f.0)

  reused_if :
      (b : Bool) (req : Request) (old : ℕ) (s : Db) (x : Ticket) (store : Store)
      → b ≡ false
      → AllOver x.user_id (spec_if sec settings b req old s x store).1
  reused_if true req old s x store e = cc
  reused_if false req old s x store e = end_all-AllOver x.user_id store

  -- Presenting a spent ticket ends all tickets of its user.
  refresh-AllOver :
      (req : Request) (raw : ℕ) (s : Db) (x : Ticket)
      → view s.tokens (sec.hash_opaque_token raw) ≡ some x
      → x.is_live ≡ false
      → AllOver x.user_id (view ((refresh sec settings req raw s).1).tokens)
  refresh-AllOver req raw s x found spent h =
      rw ((refresh-spec_refresh sec settings req raw s).1 h, found)
        (reused_if x.is_live req (sec.hash_opaque_token raw) s x (view s.tokens) spent h)

  -- Presenting a token that is spent is refused and ends all sessions of its user: through any
  -- later calls that issue no new session to this user, each of the tokens that was his is refused.
  pub refresh_reused :
      (req later : Request) (raw other : ℕ) (s : Db) (x y : Ticket) (calls : List SessionCall)
      → view s.tokens (sec.hash_opaque_token raw) ≡ some x
      → x.is_live ≡ false
      → All (λ c. spares x.user_id c ≡ true) calls
      → view
          (run sec settings calls (refresh sec settings req raw s).1).tokens
          (sec.hash_opaque_token other)
        ≡ some y
      → y.user_id ≡ x.user_id
      → ((refresh sec settings req raw s).0 ≡ err unauthorized)
        × ((refresh sec settings later other
              (run sec settings calls (refresh sec settings req raw s).1)).0
            ≡ err unauthorized)
  refresh_reused req later raw other s x y calls found spent f known his = (
    refresh-spent sec settings req raw s (rw (found, spent) refl),
    refresh-spent sec settings later other (run sec settings calls next) (
        rw known (
          over_spent x.user_id y
            (subst (λ o. is_over x.user_id o ≡ true) known
              (AllOver-run x.user_id calls next f (refresh-AllOver req raw s x found spent)
                (sec.hash_opaque_token other)))
            his)),
  )
    where
      next : Db
      next = (refresh sec settings req raw s).1
