-- ===== src/Access/Sessions/Traces/Once.antt =====
-- One refresh token over a sequence of calls (services/auth.py).
use nexasalon_api.Prelude.{
  ℕ, ◌≤◌, Bool, true, false, ◌≡◌, refl, ◌∙◌, ap, subst, inl, inr, Option, none, some, List, [], ◌∷◌,
  ◌==◌, Bool-cases, err, unauthorized, arith, leb, ==_iff, ==_refl, not-true,
}
use nexasalon_api.Access.Records.{Db, Security, Settings, Request}
use nexasalon_api.Access.Tokens.{is_some}
use nexasalon_api.Access.Sessions.{refresh}
use nexasalon_api.Access.Sessions.Tickets.{Ticket, Store, view}
use nexasalon_api.Access.Sessions.Rotation.{
  refresh-spec_refresh, spec_found, spec_if, spec_late, spec_valid, spec_taken, is_valid_of,
  new_hash,
}
use nexasalon_api.Access.Members.{get_membership}
use nexasalon_api.Access.Sessions.Traces.{
  SessionCall, refreshes, logs_out, issues, changes, is_ok, is_spent, after, use_of, uses,
  is_spent-after,
}

module _ (sec : Security) (settings : Settings) where
  refused_found :
      (o : Option Ticket) (req : Request) (old : ℕ) (s : Db) (store : Store)
      → is_spent o ≡ true
      → (spec_found sec settings req old s o store).0 ≡ err unauthorized
  refused_found none req old s store e = cc
  refused_found (some x) req old s store e = rw (not-true x.is_live e) refl

  -- A spent ticket is refused.
  pub refresh-spent :
      (req : Request) (raw : ℕ) (s : Db)
      → is_spent (view s.tokens (sec.hash_opaque_token raw)) ≡ true
      → (refresh sec settings req raw s).0 ≡ err unauthorized
  refresh-spent req raw s e =
      (refresh-spec_refresh sec settings req raw s).0
      ∙ refused_found (view s.tokens (sec.hash_opaque_token raw)) req (sec.hash_opaque_token raw) s
          (view s.tokens) e

  spends_taken :
      (b : Bool) (req : Request) (old : ℕ) (x : Ticket) (store : Store)
      → store old ≡ some x
      → is_ok (spec_taken sec settings b req old x store).0 ≡ true
      → is_spent ((spec_taken sec settings b req old x store).1 old) ≡ true
  spends_taken true req old x store f e = cc
  spends_taken false req old x store f e = rw (==_refl old, f) refl

  spends_valid :
      (b : Bool) (req : Request) (old : ℕ) (x : Ticket) (store : Store)
      → store old ≡ some x
      → is_ok (spec_valid sec settings b req old x store).0 ≡ true
      → is_spent ((spec_valid sec settings b req old x store).1 old) ≡ true
  spends_valid true req old x store f e =
      spends_taken (is_some (store (new_hash sec settings req))) req old x store f e
  spends_valid false req old x store f e = cc

  spends_late :
      (b : Bool) (req : Request) (old : ℕ) (s : Db) (x : Ticket) (store : Store)
      → store old ≡ some x
      → is_ok (spec_late sec settings b req old s x store).0 ≡ true
      → is_spent ((spec_late sec settings b req old s x store).1 old) ≡ true
  spends_late true req old s x store f e = cc
  spends_late false req old s x store f e =
      spends_valid (is_valid_of sec settings x (get_membership x.membership_id s)) req old x store f
        e

  spends_if :
      (b : Bool) (req : Request) (old : ℕ) (s : Db) (x : Ticket) (store : Store)
      → store old ≡ some x
      → is_ok (spec_if sec settings b req old s x store).0 ≡ true
      → is_spent ((spec_if sec settings b req old s x store).1 old) ≡ true
  spends_if true req old s x store f e =
      spends_late (leb x.expires_at req.now) req old s x store f e
  spends_if false req old s x store f e = cc

  spends_found :
      (o : Option Ticket) (req : Request) (old : ℕ) (s : Db) (store : Store)
      → store old ≡ o
      → is_ok (spec_found sec settings req old s o store).0 ≡ true
      → is_spent ((spec_found sec settings req old s o store).1 old) ≡ true
  spends_found none req old s store f e = cc
  spends_found (some x) req old s store f e = spends_if x.is_live req old s x store f e

  -- A ticket that was accepted is spent.
  refresh-spends :
      (req : Request) (raw : ℕ) (s : Db)
      → is_ok (refresh sec settings req raw s).0 ≡ true
      → is_spent (view ((refresh sec settings req raw s).1).tokens (sec.hash_opaque_token raw))
        ≡ true
  refresh-spends req raw s e =
      rw ((refresh-spec_refresh sec settings req raw s).1 (sec.hash_opaque_token raw)) (
        spends_found (view s.tokens (sec.hash_opaque_token raw)) req (sec.hash_opaque_token raw) s
          (view s.tokens) refl
          (subst (λ r. is_ok r ≡ true) (refresh-spec_refresh sec settings req raw s).0 e))

  uses-spent :
      (raw : ℕ) (calls : List SessionCall) (s : Db)
      → is_spent (view s.tokens (sec.hash_opaque_token raw)) ≡ true
      → uses sec settings raw calls s ≡ 0
  uses-spent raw [] s e = refl
  uses-spent raw (c ∷ cs) s e = omega (
    arith,
    unused c,
    uses-spent raw cs (after sec settings c s) (is_spent-after sec settings c s _ e),
  )
    where
      unused : (c : SessionCall) → use_of sec settings raw c s ≡ 0
      unused (refreshes req r) = elim (Bool-cases (r == raw)) [
        | inl g ↦
            rw
              (
                g,
                ap (λ x. is_ok (refresh sec settings req x s).0) ((==_iff r raw).0 g),
                refresh-spent req raw s e,
              )
              refl
        | inr g ↦ rw g refl
      ]
      unused (logs_out req r) = refl
      unused (issues req u o m) = refl
      unused (changes ms) = refl

  -- However often a refresh token is presented, in whatever order with logins, logouts, other
  -- refreshes and changes of the memberships, it is accepted at most once.
  pub refresh_once :
      (raw : ℕ) (calls : List SessionCall) (s : Db) → uses sec settings raw calls s ≤ 1
  refresh_once raw [] s = omega arith
  refresh_once raw (logs_out req r ∷ cs) s =
      omega (arith, refresh_once raw cs (after sec settings (logs_out req r) s))
  refresh_once raw (issues req u o m ∷ cs) s =
      omega (arith, refresh_once raw cs (after sec settings (issues req u o m) s))
  refresh_once raw (changes ms ∷ cs) s =
      omega (arith, refresh_once raw cs (after sec settings (changes ms) s))
  refresh_once raw (refreshes req r ∷ cs) s = elim (Bool-cases (r == raw)) [
    | inr g ↦ rw g (omega (arith, refresh_once raw cs (after sec settings (refreshes req r) s)))
    | inl g ↦ elim (Bool-cases (is_ok (refresh sec settings req r s).0)) [
      | inr f ↦
          rw (g, f) (omega (arith, refresh_once raw cs (after sec settings (refreshes req r) s)))
      | inl f ↦
          rw (g, f)
            (omega (
              arith,
              uses-spent raw cs (after sec settings (refreshes req r) s) (
                  subst
                    (λ x.
                      is_spent
                        (view ((refresh sec settings req r s).1).tokens (sec.hash_opaque_token x))
                      ≡ true)
                    ((==_iff r raw).0 g) (refresh-spends req r s f)),
            ))
    ]
  ]
