-- ===== src/Access/Agenda/Scopes.antt =====
-- Viewing and editing after the configuration was written (services/agenda_access.py).
use nexasalon_api.Prelude.{
  ℕ, Bool, true, false, not, ◌&&◌, ◌||◌, ◌≡◌, refl, sym, ap, subst, inl, inr, some, List, [], ◌∷◌,
  ◌++◌, map, find, filter, ◌==◌, if◌then◌else◌, Bool-cases, or_right, or_imp, ok, not_found,
  validation, integrity, or_raise-then, raise_if-then, ok-injective, some-injective, modify, ◌>>◌,
  arith, ◌∙◌,
}
use nexasalon_api.Access.Records.{
  AgendaAccessScope, all_agendas, selected_agendas, OrganizationMembership, MembershipAgendaGrant,
  Db,
}
use nexasalon_api.Access.Members.{get_membership, update_membership, save_membership}
use nexasalon_api.Access.Members.Lookup.{find-update_membership, get_membership-id}
use nexasalon_api.Access.Permissions.{contains}
use nexasalon_api.Access.Users.{in_org, in_org-some}
use nexasalon_api.Access.Agenda.{
  ActorContext, can_view_professional, can_edit_professional, in_list_or, by_permission,
  list_for_membership, ids_of, ids_in_scope, resolve_viewable_and_editable_ids, is_all,
  some_missing, professional_ids, breaks_check, put_grants, selected_rows, with_scopes,
  assert_known, write_scopes, set_agenda_access,
}

rest : (a b : Bool) → (a || b) ≡ false → b ≡ false
rest a b h = ground arith

now : (a b : Bool) → (a || b) ≡ false → a ≡ false
now a b h = ground arith

first : (a b c : Bool) → (a || b) ≡ false → (b ≡ false → c ≡ false) → (a || c) ≡ false
first false b c h f = f h
first true b c h f = cc

-- The rows of the membership are those that were put.
put_rows :
    (id : ℕ) (old gs : List MembershipAgendaGrant)
    → breaks_check gs ≡ false
    → breaks_check
        (filter (λ g. g.membership_id == id) (filter (λ g. not (g.membership_id == id)) old ++ gs))
      ≡ false
put_rows id [] gs h = kept gs h
  where
    kept :
        (gs : List MembershipAgendaGrant)
        → breaks_check gs ≡ false
        → breaks_check (filter (λ g. g.membership_id == id) gs) ≡ false
    kept [] = λ h. h
    kept (g ∷ gs) = elim (Bool-cases (g.membership_id == id)) [
      | inl e ↦ rw e (λ h.
          first (g.can_edit && not g.can_view) (breaks_check gs)
            (breaks_check (filter (λ g. g.membership_id == id) gs)) h (kept gs))
      | inr e ↦ rw e (λ h. kept gs (rest (g.can_edit && not g.can_view) (breaks_check gs) h))
    ]
put_rows id (g ∷ old) gs h = elim (Bool-cases (g.membership_id == id)) [
  | inl e ↦ rw e (put_rows id old gs h)
  | inr e ↦ rw (e, e) (put_rows id old gs h)
]

contains_step :
    (p : ℕ) (g : MembershipAgendaGrant) (e v : Bool) (es vs : List MembershipAgendaGrant)
    → (e && not v) ≡ false
    → (contains p (map (λ x. x.professional_id) es) ≡ true
        → contains p (map (λ x. x.professional_id) vs) ≡ true)
    → contains p (map (λ x. x.professional_id) (if e then g ∷ es else es)) ≡ true
    → contains p (map (λ x. x.professional_id) (if v then g ∷ vs else vs)) ≡ true
contains_step p g true true es vs h f k =
    or_imp (g.professional_id == p) (g.professional_id == p)
      (contains p (map (λ x. x.professional_id) es)) (contains p (map (λ x. x.professional_id) vs))
      k (λ r. r) f
contains_step p g true false es vs h f k = cc
contains_step p g false true es vs h f k =
    or_right (g.professional_id == p) (contains p (map (λ x. x.professional_id) vs)) (f k)
contains_step p g false false es vs h f k = f k

contains-ids_of :
    (p : ℕ) (gs : List MembershipAgendaGrant)
    → breaks_check gs ≡ false
    → contains p (ids_of (λ g. g.can_edit) gs) ≡ true
    → contains p (ids_of (λ g. g.can_view) gs) ≡ true
contains-ids_of p [] h k = k
contains-ids_of p (g ∷ gs) h k =
    contains_step p g g.can_edit g.can_view (filter (λ x. x.can_edit) gs)
      (filter (λ x. x.can_view) gs) (now (g.can_edit && not g.can_view) (breaks_check gs) h)
      (contains-ids_of p gs (rest (g.can_edit && not g.can_view) (breaks_check gs) h)) k

-- The scopes of one and the same kind, on rows that the table accepts.
edit_view :
    (view_scope edit_scope : AgendaAccessScope) (gs : List MembershipAgendaGrant) (p : ℕ) (b : Bool)
    → (is_all edit_scope && not (is_all view_scope)) ≡ false
    → (is_all view_scope && not (is_all edit_scope)) ≡ false
    → breaks_check gs ≡ false
    → in_list_or
        (ids_in_scope edit_scope (λ g. g.can_edit) gs)
        p
        (in_list_or (ids_in_scope view_scope (λ g. g.can_view) gs) p b)
      ≡ true
    → in_list_or (ids_in_scope view_scope (λ g. g.can_view) gs) p b ≡ true
edit_view all_agendas all_agendas gs p b h k c e = e
edit_view all_agendas selected_agendas gs p b h k c e = cc
edit_view selected_agendas all_agendas gs p b h k c e = cc
edit_view selected_agendas selected_agendas gs p b h k c e = contains-ids_of p gs c e

-- The state that an accepted configuration leaves.
abbrev configured :
    AgendaAccessScope → AgendaAccessScope → List ℕ → List ℕ → OrganizationMembership → Db → Db
configured view_scope edit_scope view_ids edit_ids m s =
    put_grants m.id (selected_rows (is_all view_scope && is_all edit_scope) m.id view_ids edit_ids)
      (save_membership m.id (with_scopes view_scope edit_scope) s)

set_agenda_access-ok :
    (organization_id membership_id : ℕ) (view_scope edit_scope : AgendaAccessScope)
    (view_ids edit_ids : List ℕ) (s : Db) {r : Unit {0} × Db}
    → set_agenda_access organization_id membership_id view_scope edit_scope view_ids edit_ids s
      ≡ ok r
    → (m : OrganizationMembership) × (get_membership membership_id s ≡ some m)
      × ((is_all edit_scope && not (is_all view_scope)) ≡ false)
      × (breaks_check
            (selected_rows (is_all view_scope && is_all edit_scope) m.id view_ids edit_ids)
          ≡ false)
      × (configured view_scope edit_scope view_ids edit_ids m s ≡ r.1)
unfolding set_agenda_access
set_agenda_access-ok organization_id membership_id view_scope edit_scope view_ids edit_ids s h =
    let (m, found, h0) =
      or_raise-then (in_org organization_id (get_membership membership_id s)) not_found _ s h in
    let (c1, h1) = raise_if-then (is_all edit_scope && not (is_all view_scope)) validation _ s h0 in
    let (c2, h2) =
      raise_if-then
        (not (is_all edit_scope) && (not (is_all view_scope) && some_missing edit_ids view_ids))
        validation
        (assert_known organization_id view_ids edit_ids
          >> write_scopes view_scope edit_scope view_ids edit_ids m.id)
        s h1 in
    let (c3, h3) =
      raise_if-then
        (some_missing view_ids (professional_ids organization_id s)
          || some_missing edit_ids (professional_ids organization_id s))
        validation (write_scopes view_scope edit_scope view_ids edit_ids m.id) s h2 in
    let (c4, h4) =
      raise_if-then
        (breaks_check
          (selected_rows (is_all view_scope && is_all edit_scope) m.id view_ids edit_ids))
        integrity
        (modify (
          put_grants m.id
            (selected_rows (is_all view_scope && is_all edit_scope) m.id view_ids edit_ids)))
        (save_membership m.id (with_scopes view_scope edit_scope) s) h3 in
    (m, in_org-some organization_id _ found, c1, c4, ap (λ x. x.1) (ok-injective h4))

configured_row :
    (view_scope edit_scope : AgendaAccessScope) (view_ids edit_ids : List ℕ)
    (m : OrganizationMembership) (s : Db) (id : ℕ)
    → get_membership id s ≡ some m
    → get_membership id (configured view_scope edit_scope view_ids edit_ids m s)
      ≡ some (with_scopes view_scope edit_scope m)
configured_row view_scope edit_scope view_ids edit_ids m s id h =
    subst
      (λ n.
        find (λ x. x.id == id)
          (update_membership n (with_scopes view_scope edit_scope) s.memberships)
        ≡ some (with_scopes view_scope edit_scope m))
      (sym (get_membership-id id s h))
      (find-update_membership id (with_scopes view_scope edit_scope) s.memberships (λ x. refl) h)

-- After a configuration was accepted whose scopes are not ALL for viewing with SELECTED for
-- editing, whoever acts under the membership may view every agenda that he may edit.
pub set_agenda_access-edit :
    (organization_id membership_id : ℕ) (view_scope edit_scope : AgendaAccessScope)
    (view_ids edit_ids : List ℕ) (s : Db) (r : Unit {0} × Db) (m : OrganizationMembership)
    (actor : ActorContext) (p : ℕ)
    → (is_all view_scope && not (is_all edit_scope)) ≡ false
    → set_agenda_access organization_id membership_id view_scope edit_scope view_ids edit_ids s
      ≡ ok r
    → get_membership membership_id r.1 ≡ some m
    → (actor.agenda_viewable_professional_ids, actor.agenda_editable_professional_ids)
      ≡ resolve_viewable_and_editable_ids r.1 m
    → can_edit_professional actor p ≡ true
    → can_view_professional actor p ≡ true
unfolding set_agenda_access resolve_viewable_and_editable_ids can_edit_professional
    can_view_professional
set_agenda_access-edit organization_id membership_id view_scope edit_scope view_ids edit_ids s r m
      actor p k e found lists =
    let (m0, row, c, b, state) =
      set_agenda_access-ok organization_id membership_id view_scope edit_scope view_ids edit_ids s
        e in
    let same = some-injective (
      sym (configured_row view_scope edit_scope view_ids edit_ids m0 s membership_id row)
      ∙ subst (λ x. get_membership membership_id x ≡ some m) (sym state) found) in
    let resolved =
      lists
      ∙ sym (ap (resolve_viewable_and_editable_ids r.1) same)
      ∙ sym (
          ap (λ x. resolve_viewable_and_editable_ids x (with_scopes view_scope edit_scope m0))
            state) in
    subst
      (λ x.
        in_list_or x.1 p (in_list_or x.0 p (by_permission actor p)) ≡ true
        → in_list_or x.0 p (by_permission actor p) ≡ true)
      (sym resolved)
      (edit_view view_scope edit_scope
        (list_for_membership m0.id (configured view_scope edit_scope view_ids edit_ids m0 s)) p
        (by_permission actor p) c k
        (put_rows m0.id s.grants
          (selected_rows (is_all view_scope && is_all edit_scope) m0.id view_ids edit_ids) b))
