-- ===== src/Access/Actor/LockedOut.antt =====
-- Taking access away, and what the tokens issued before are still good for.
use nexasalon_api.Prelude.{
  ℕ, Bool, true, false, not, ◌&&◌, ◌≡◌, refl, sym, ap, subst, ◌∙◌, inl, inr, Option, none, some,
  find, ◌==◌, if◌then◌else◌, Bool-cases, ok, err, forbidden, not_found, or_raise-then, ok-injective,
  arith, leb,
}
use nexasalon_api.Access.Records.{
  MembershipStatus, OrganizationMembership, Db, Security, Settings, Request, Payload, access,
}
use nexasalon_api.Access.Members.{
  get_membership, get_user, update_membership, is_active_member, is_active_status,
}
use nexasalon_api.Access.Members.Lookup.{find-update_membership, get_membership-id}
use nexasalon_api.Access.Users.{in_org, in_org-some, set_membership_status, with_status}
use nexasalon_api.Access.Users.Masters.{guard_master-then}
use nexasalon_api.Access.Sessions.{refresh}
use nexasalon_api.Access.Sessions.Tickets.{Ticket, Store, view}
use nexasalon_api.Access.Sessions.Rotation.{
  refresh-spec_refresh, spec_found, spec_if, spec_late, spec_valid, is_valid_of,
}
use nexasalon_api.Access.Sessions.Traces.{is_ok}
use nexasalon_api.Access.Sessions.Entry.{is_type}
use nexasalon_api.Access.Agenda.{ActorContext}
use nexasalon_api.Access.Actor.{
  actor_for, actor_claims, actor_payload, is_active_user, get_real_current_actor,
}

-- The row of the membership after the call.
written_row :
    (organization_id membership_id : ℕ) (status : MembershipStatus) (actor_user_id : ℕ) (s : Db)
    {r : Unit {0} × Db}
    → set_membership_status organization_id membership_id status actor_user_id s ≡ ok r
    → (m : OrganizationMembership) × (get_membership membership_id r.1
        ≡ some (with_status status m))
unfolding set_membership_status
written_row organization_id membership_id status actor_user_id s {r} h =
    let (m, found, h1) =
      or_raise-then (in_org organization_id (get_membership membership_id s)) not_found _ s h in
    let (guard, h2) =
      guard_master-then (is_active_status m.status && not (is_active_status status)) organization_id
        m _ s h1 in
    let row = in_org-some organization_id (get_membership membership_id s) found in
    (
      m,
      subst (λ x. get_membership membership_id x.1 ≡ some (with_status status m)) (ok-injective h2)
          (subst
            (λ n.
              find (λ x. x.id == membership_id)
                (update_membership n (with_status status) s.memberships)
              ≡ some (with_status status m))
            (sym (get_membership-id membership_id s row))
            (find-update_membership membership_id (with_status status) s.memberships (λ x. refl)
              row)),
    )

and_false : (a b : Bool) → b ≡ false → (a && b) ≡ false
and_false a b h = ground arith

refused :
    (a b : Bool) (actor : ActorContext)
    → b ≡ false
    → is_ok (if a && b then ok actor else err forbidden) ≡ false
refused a b actor h = rw (and_false a b h) refl

no_actor :
    (o : Option Payload) (id : ℕ) (s : Db) (m : OrganizationMembership)
    → get_membership id s ≡ some m
    → is_active_member m ≡ false
    → ((p : Payload) → o ≡ some p → p.membership_id ≡ some id)
    → is_ok (actor_payload o s) ≡ false
no_actor none id s m f h k = refl
no_actor (some p) id s m f h k = elim (Bool-cases (is_type access p.type_of)) [
  | inr e ↦ rw e refl
  | inl e ↦ rw (e, k p refl) (by_org p.org_id)
]
  where
    by_org : (o : Option ℕ) → is_ok (actor_claims p.sub o (some id) s) ≡ false
    by_org none = refl
    by_org (some org) = elim (Bool-cases (is_active_user (get_user p.sub s))) [
      | inr e ↦ rw e refl
      | inl e ↦
          rw (e, f)
            (refused ((m.user_id == p.sub) && (m.organization_id == org)) (is_active_member m)
              (actor_for s m) h)
    ]

module _ (sec : Security) (settings : Settings) where
  no_valid :
      (b : Bool) (req : Request) (old : ℕ) (x : Ticket) (store : Store)
      → b ≡ false
      → is_ok (spec_valid sec settings b req old x store).0 ≡ false
  no_valid true req old x store h = cc
  no_valid false req old x store h = refl

  no_late :
      (b : Bool) (req : Request) (old : ℕ) (s : Db) (x : Ticket) (store : Store)
      → is_valid_of sec settings x (get_membership x.membership_id s) ≡ false
      → is_ok (spec_late sec settings b req old s x store).0 ≡ false
  no_late true req old s x store h = refl
  no_late false req old s x store h =
      no_valid (is_valid_of sec settings x (get_membership x.membership_id s)) req old x store h

  no_live :
      (b : Bool) (req : Request) (old : ℕ) (s : Db) (x : Ticket) (store : Store)
      → is_valid_of sec settings x (get_membership x.membership_id s) ≡ false
      → is_ok (spec_if sec settings b req old s x store).0 ≡ false
  no_live true req old s x store h = no_late (leb x.expires_at req.now) req old s x store h
  no_live false req old s x store h = refl

  no_refresh :
      (req : Request) (raw : ℕ) (x : Ticket) (s : Db) (m : OrganizationMembership)
      → view s.tokens (sec.hash_opaque_token raw) ≡ some x
      → get_membership x.membership_id s ≡ some m
      → is_active_member m ≡ false
      → is_ok (refresh sec settings req raw s).0 ≡ false
  no_refresh req raw x s m h row inactive =
      ap is_ok (refresh-spec_refresh sec settings req raw s).0
      ∙ subst
          (λ o.
            is_ok (spec_found sec settings req (sec.hash_opaque_token raw) s o (view s.tokens)).0
            ≡ false)
          (sym h)
          (no_live x.is_live req (sec.hash_opaque_token raw) s x (view s.tokens) (
            subst (λ o. is_valid_of sec settings x o ≡ false) (sym row)
              (and_false (m.organization_id == x.organization_id && m.user_id == x.user_id)
                (is_active_member m) inactive)))

  -- As soon as an administrator makes a membership anything but active, no access token and no
  -- refresh token that was issued for it is of use: no request finds an actor under it, and no
  -- refresh succeeds.
  pub set_membership_status-LockedOut :
      (organization_id membership_id : ℕ) (status : MembershipStatus) (actor_user_id : ℕ) (s : Db)
      (r : Unit {0} × Db) (now token : ℕ) (req : Request) (raw : ℕ) (x : Ticket)
      → is_active_status status ≡ false
      → set_membership_status organization_id membership_id status actor_user_id s ≡ ok r
      → ((p : Payload) → sec.decode now token ≡ some p → p.membership_id ≡ some membership_id)
      → view (r.1).tokens (sec.hash_opaque_token raw) ≡ some x
      → x.membership_id ≡ membership_id
      → (is_ok (get_real_current_actor sec now token r.1) ≡ false)
        × (is_ok (refresh sec settings req raw r.1).0 ≡ false)
  unfolding get_real_current_actor
  set_membership_status-LockedOut organization_id membership_id status actor_user_id s r now token
        req raw x h e claims ticket his =
      let (m, row) = written_row organization_id membership_id status actor_user_id s e in
      (
        no_actor (sec.decode now token) membership_id r.1 (with_status status m) row h claims,
        no_refresh req raw x r.1 (with_status status m) ticket
            (subst (λ n. get_membership n r.1 ≡ some (with_status status m)) (sym his) row) h,
      )
