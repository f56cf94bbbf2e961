-- ===== src/Access/Sessions/Rotation.antt =====
-- `refresh` and `logout` against the store of tickets.
use nexasalon_api.Prelude.{
  ℕ, Bool, true, false, not, ◌&&◌, ◌+◌, ◌≡◌, refl, sym, ◌∙◌, ap, subst, inl, inr, Option, none,
  some, ◌==◌, leb, if◌then◌else◌, Bool-cases, Result, ok, err, unauthorized, forbidden, integrity,
  pure, modify, ◌>>=◌, ◌>>◌, ==_iff, find-test,
}
use mathlib.Core.Option as Option
use nexasalon_api.Access.Records.{
  RefreshToken, OrganizationMembership, Db, Security, Settings, Request,
}
use nexasalon_api.Access.Members.{get_membership, is_active_member}
use nexasalon_api.Access.Tokens.{
  get_by_hash, is_some, create_if, mark_rotated, update_token, revoked,
}
use nexasalon_api.Access.Sessions.{
  SessionTokens, session_tokens, refresh_member, refresh_if, refresh_found, refresh, rotate,
  is_valid_for, atomic, logout, logout_found, settled, new_token, refresh_valid, refresh_late,
}
use nexasalon_api.Access.Sessions.Tickets.{
  Ticket, Store, ticket_of, view, ended, end_all, exchange, view-end_all, view-end, view-exchange,
}

module _ (sec : Security) (settings : Settings) where
  -- The membership of a ticket is there, is of its user and organization, and is active.
  abbrev pub is_valid_member : Ticket → OrganizationMembership → Bool
  is_valid_member x m =
      (m.organization_id == x.organization_id && m.user_id == x.user_id) && is_active_member m

  abbrev pub is_valid_of : Ticket → Option OrganizationMembership → Bool
  is_valid_of x none = false
  is_valid_of x (some m) = is_valid_member x m

  abbrev pub new_hash : Request → ℕ
  new_hash req = sec.hash_opaque_token req.opaque_token

  -- The ticket that takes the place of another.
  abbrev pub next_ticket : Request → Ticket → Ticket
  next_ticket req x = record x { expires_at = req.now + settings.refresh_token_ttl; is_live = true }

  abbrev pub spec_taken : Bool → Request → ℕ → Ticket → Store → Result SessionTokens × Store
  spec_taken true req old x store = (err integrity, store)
  spec_taken false req old x store = (
    ok (session_tokens sec settings req x.user_id x.organization_id x.membership_id),
    exchange old (new_hash req) (next_ticket req x) store,
  )

  abbrev pub spec_valid : Bool → Request → ℕ → Ticket → Store → Result SessionTokens × Store
  spec_valid true req old x store = spec_taken (is_some (store (new_hash req))) req old x store
  spec_valid false req old x store = (err forbidden, store)

  abbrev pub spec_late : Bool → Request → ℕ → Db → Ticket → Store → Result SessionTokens × Store
  spec_late true req old s x store = (err unauthorized, store)
  spec_late false req old s x store =
      spec_valid (is_valid_of x (get_membership x.membership_id s)) req old x store

  abbrev pub spec_if : Bool → Request → ℕ → Db → Ticket → Store → Result SessionTokens × Store
  spec_if true req old s x store = spec_late (leb x.expires_at req.now) req old s x store
  spec_if false req old s x store = (err unauthorized, end_all x.user_id store)

  abbrev pub spec_found : Request → ℕ → Db → Option Ticket → Store → Result SessionTokens × Store
  spec_found req old s none store = (err unauthorized, store)
  spec_found req old s (some x) store = spec_if x.is_live req old s x store

  -- What presenting a raw token does to a store.
  abbrev pub spec_refresh : Request → ℕ → Db → Store → Result SessionTokens × Store
  spec_refresh req raw s store =
      spec_found req (sec.hash_opaque_token raw) s (store (sec.hash_opaque_token raw)) store

  -- The same answer, and the same tickets.
  abbrev pub Implements : {A : Type 0} → Result A × Db → Result A × Store → Type 0
  Implements r q = (r.0 ≡ q.0) × ((h : ℕ) → view (r.1).tokens h ≡ q.1 h)

  is_some-view : (h : ℕ) (s : Db) → is_some (view s.tokens h) ≡ is_some (get_by_hash h s.tokens)
  is_some-view h s = by_row (get_by_hash h s.tokens)
    where
      by_row : (o : Option RefreshToken) → is_some (Option.map ticket_of o) ≡ is_some o
      by_row none = refl
      by_row (some t) = refl

  -- The exchange itself, by whether the new digest is taken.
  rotate-Implements :
      (req : Request) (t : RefreshToken) (s : Db) (taken : Bool)
      → get_by_hash t.token_hash s.tokens ≡ some t
      → Implements
          (settled s (
            (create_if taken
                  (new_token sec settings req t.user_id t.organization_id t.membership_id)
                >>= λ row.
                    modify (mark_rotated t.token_hash row.id req.now)
                    >> pure (
                        session_tokens sec settings req t.user_id t.organization_id
                          t.membership_id))
              s))
          (spec_taken taken req t.token_hash (ticket_of t) (view s.tokens))
  rotate-Implements req t s true found = (refl, λ h. refl)
  rotate-Implements req t s false found =
      (refl, λ h. view-exchange t.token_hash req.now s.next_id s.tokens t _ h found)

  valid-Implements :
      (req : Request) (t : RefreshToken) (s : Db) (b : Bool)
      → get_by_hash t.token_hash s.tokens ≡ some t
      → Implements
          (refresh_valid sec settings b req t t.membership_id s)
          (spec_valid b req t.token_hash (ticket_of t) (view s.tokens))
  valid-Implements req t s false found = (refl, λ h. refl)
  valid-Implements req t s true found =
      subst
        (λ b.
          Implements (atomic (rotate sec settings req t t.membership_id) s)
            (spec_taken b req t.token_hash (ticket_of t) (view s.tokens)))
        (sym (is_some-view (new_hash req) s))
        (rotate-Implements req t s (is_some (get_by_hash (new_hash req) s.tokens)) found)

  member-Implements :
      (req : Request) (t : RefreshToken) (s : Db) (o : Option OrganizationMembership)
      → get_by_hash t.token_hash s.tokens ≡ some t
      → get_membership t.membership_id s ≡ o
      → Implements
          (refresh_member sec settings req t o s)
          (spec_valid (is_valid_of (ticket_of t) o) req t.token_hash (ticket_of t) (view s.tokens))
  member-Implements req t s none found e = (refl, λ h. refl)
  member-Implements req t s (some m) found e =
      subst
        (λ id. Implements (refresh_valid sec settings (is_valid_for sec settings t m) req t id s) (
          spec_valid (is_valid_for sec settings t m) req t.token_hash (ticket_of t)
            (view s.tokens)))
        (sym (
          (==_iff m.id t.membership_id).0
            (find-test (λ x. x.id == t.membership_id) s.memberships e)))
        (valid-Implements req t s (is_valid_for sec settings t m) found)

  late-Implements :
      (req : Request) (t : RefreshToken) (s : Db) (b : Bool)
      → get_by_hash t.token_hash s.tokens ≡ some t
      → Implements
          (refresh_late sec settings b req t s)
          (spec_late b req t.token_hash s (ticket_of t) (view s.tokens))
  late-Implements req t s true found = (refl, λ h. refl)
  late-Implements req t s false found =
      member-Implements req t s (get_membership t.membership_id s) found refl

  -- For every raw token and every state, `refresh` gives the answer and leaves the tickets that the
  -- store of tickets says: an unknown token is refused, one that is not live ends all tickets of
  -- its user, one that expired or lost its membership is refused, and any other is exchanged.
  pub refresh-spec_refresh :
      (req : Request) (raw : ℕ) (s : Db)
      → Implements (refresh sec settings req raw s) (spec_refresh req raw s (view s.tokens))
  unfolding refresh
  refresh-spec_refresh req raw s = found (get_by_hash (sec.hash_opaque_token raw) s.tokens) refl
    where
      found :
          (o : Option RefreshToken)
          → get_by_hash (sec.hash_opaque_token raw) s.tokens ≡ o
          → Implements (refresh_found sec settings req o s) (
              spec_found req (sec.hash_opaque_token raw) s (Option.map ticket_of o) (view s.tokens))
      found none e = (refl, λ h. refl)
      found (some t) e = by_revoked (is_some t.revoked_at)
        where
          by_revoked :
              (b : Bool)
              → Implements
                  (refresh_if sec settings b req t s)
                  (spec_if (not b) req (sec.hash_opaque_token raw) s (ticket_of t) (view s.tokens))
          by_revoked true = (refl, view-end_all t.user_id req.now s.tokens)
          by_revoked false =
              subst
                (λ d.
                  Implements (refresh_late sec settings (leb t.expires_at req.now) req t s)
                    (spec_late (leb t.expires_at req.now) req d s (ticket_of t) (view s.tokens)))
                digest
                (late-Implements req t s (leb t.expires_at req.now)
                  (ap (λ d. get_by_hash d s.tokens) digest ∙ e))
            where
              digest : t.token_hash ≡ sec.hash_opaque_token raw
              digest =
                  (==_iff t.token_hash (sec.hash_opaque_token raw)).0
                    (find-test (λ x. x.token_hash == sec.hash_opaque_token raw) s.tokens e)

  already_ended :
      (t : RefreshToken) → is_some t.revoked_at ≡ true → ended (ticket_of t) ≡ ticket_of t
  already_ended t e = rw e refl

  -- For every raw token and every state, `logout` answers without an error, ends the ticket that
  -- the token names, if there is one, and leaves every other ticket as it was.
  pub logout-ended :
      (req : Request) (raw : ℕ) (s : Db)
      → Implements (logout sec settings req raw s) (
        ok tt,
        λ h.
            if h == sec.hash_opaque_token raw
            then Option.map ended (view s.tokens h)
            else view s.tokens h,
      )
  unfolding logout
  logout-ended req raw s = found (get_by_hash (sec.hash_opaque_token raw) s.tokens) refl
    where
      digest : ℕ
      digest = sec.hash_opaque_token raw

      Ends : Result (Unit {0}) × Db → Type 0
      Ends r =
          Implements r (
            ok tt,
            λ h. if h == digest then Option.map ended (view s.tokens h) else view s.tokens h,
          )

      -- The ticket, if any, had ended before.
      untouched :
          Option.map ended (view s.tokens digest) ≡ view s.tokens digest
          → (h : ℕ)
          → view s.tokens h
            ≡ (if h == digest then Option.map ended (view s.tokens h) else view s.tokens h)
      untouched e h = elim (Bool-cases (h == digest)) [
        | inl g ↦ rw g (
            sym (
              subst (λ k. Option.map ended (view s.tokens k) ≡ view s.tokens k)
                (sym ((==_iff h digest).0 g)) e))
        | inr g ↦ rw g refl
      ]

      found :
          (o : Option RefreshToken)
          → get_by_hash digest s.tokens ≡ o
          → Ends (logout_found sec settings req o s)
      found none e = (refl, untouched (rw e refl))
      found (some t) e = elim (Bool-cases (is_some t.revoked_at)) [
        | inl g ↦ rw g (refl, untouched (rw e (ap some (already_ended t g))))
        | inr g ↦ rw g (
          refl,
          λ h.
              subst
                (λ k.
                  view (update_token t.token_hash (revoked req.now) s.tokens) h
                  ≡ (if h == k then Option.map ended (view s.tokens h) else view s.tokens h))
                ((==_iff t.token_hash digest).0
                  (find-test (λ x. x.token_hash == digest) s.tokens e))
                (view-end t.token_hash req.now s.tokens h),
        )
      ]
