-- ===== src/Access/Agenda.antt =====
-- services/agenda_access.py: whose agendas a membership may see and edit. The sets of ids are lists
-- of which only `contains` is read.
pub mod Scopes
use nexasalon_api.Prelude.{
  ℕ, Bool, true, false, not, ◌&&◌, ◌||◌, Option, none, some, List, [], ◌∷◌, ◌++◌, map, find, filter,
  ◌==◌, if◌then◌else◌, Tx, not_found, validation, integrity, pure, gets, modify, raise_if, ◌>>=◌,
  ◌>>◌,
}
use nexasalon_api.Access.Records.{
  AgendaAccessScope, all_agendas, selected_agendas, agenda_view_own, agenda_view_all,
  OrganizationMembership, MembershipAgendaGrant, Db,
}
use nexasalon_api.Access.Members.{save_membership}
use nexasalon_api.Access.Permissions.{contains}
use nexasalon_api.Access.Users.{get_membership_in_org}

-- What core/actor.py keeps of the one who asks, `none` for no list of agendas.
pub record ActorContext : Type 0 where
  pub organization_id : ℕ
  pub user_id : ℕ
  pub membership_id : ℕ
  pub role_id : ℕ
  pub permissions : List ℕ
  pub professional_id : Option ℕ
  pub agenda_viewable_professional_ids : Option (List ℕ)
  pub agenda_editable_professional_ids : Option (List ℕ)

abbrev pub is_professional : ℕ → Option ℕ → Bool
is_professional professional_id none = false
is_professional professional_id (some id) = id == professional_id

abbrev pub by_permission : ActorContext → ℕ → Bool
by_permission actor professional_id =
    contains agenda_view_all actor.permissions
    || (contains agenda_view_own actor.permissions
        && is_professional professional_id actor.professional_id)

abbrev pub in_list_or : Option (List ℕ) → ℕ → Bool → Bool
in_list_or none professional_id otherwise = otherwise
in_list_or (some ids) professional_id otherwise = contains professional_id ids

unfoldable pub can_view_professional : ActorContext → ℕ → Bool
can_view_professional actor professional_id =
    in_list_or actor.agenda_viewable_professional_ids professional_id
      (by_permission actor professional_id)

unfoldable pub can_edit_professional : ActorContext → ℕ → Bool
unfolding can_view_professional
can_edit_professional actor professional_id =
    in_list_or actor.agenda_editable_professional_ids professional_id
      (can_view_professional actor professional_id)

-- `agenda_access_repo.list_for_membership`
abbrev pub list_for_membership : ℕ → Db → List MembershipAgendaGrant
list_for_membership membership_id s = filter (λ g. g.membership_id == membership_id) s.grants

abbrev pub ids_of : (MembershipAgendaGrant → Bool) → List MembershipAgendaGrant → List ℕ
ids_of p gs = map (λ g. g.professional_id) (filter p gs)

abbrev pub ids_in_scope :
    AgendaAccessScope
    → (MembershipAgendaGrant → Bool)
    → List MembershipAgendaGrant
    → Option (List ℕ)
ids_in_scope all_agendas p gs = none
ids_in_scope selected_agendas p gs = some (ids_of p gs)

-- `resolve_viewable_and_editable_ids`
unfoldable pub resolve_viewable_and_editable_ids :
    Db → OrganizationMembership → Option (List ℕ) × Option (List ℕ)
resolve_viewable_and_editable_ids s m = (
  ids_in_scope m.agenda_view_scope (λ g. g.can_view) (list_for_membership m.id s),
  ids_in_scope m.agenda_edit_scope (λ g. g.can_edit) (list_for_membership m.id s),
)

abbrev pub is_all : AgendaAccessScope → Bool
is_all all_agendas = true
is_all selected_agendas = false

-- `ids - others` is not empty.
abbrev pub some_missing : List ℕ → List ℕ → Bool
some_missing [] others = false
some_missing (id ∷ ids) others = not (contains id others) || some_missing ids others

-- `view_ids | edit_ids`
abbrev pub union : List ℕ → List ℕ → List ℕ
union [] others = others
union (id ∷ ids) others = if contains id others then union ids others else id ∷ union ids others

-- The elements of `set(ids)`.
abbrev pub set_of : List ℕ → List ℕ
set_of ids = union ids []

-- The ids of the professionals of the organization.
abbrev pub professional_ids : ℕ → Db → List ℕ
professional_ids organization_id s =
    map (λ p. p.id) (filter (λ p. p.organization_id == organization_id) s.professionals)

abbrev pub rows_for : ℕ → List ℕ → List ℕ → List ℕ → List MembershipAgendaGrant
rows_for membership_id view_ids edit_ids [] = []
rows_for membership_id view_ids edit_ids (id ∷ ids) =
    record {
      membership_id = membership_id;
      professional_id = id;
      can_view = contains id view_ids;
      can_edit = contains id edit_ids;
    }
    ∷ rows_for membership_id view_ids edit_ids ids

-- The rows of the configuration; the table refuses one that may edit and not view.
abbrev pub breaks_check : List MembershipAgendaGrant → Bool
breaks_check [] = false
breaks_check (g ∷ gs) = (g.can_edit && not g.can_view) || breaks_check gs

abbrev pub put_grants : ℕ → List MembershipAgendaGrant → Db → Db
put_grants membership_id gs s = record s {
  grants = filter (λ g. not (g.membership_id == membership_id)) s.grants ++ gs;
}

-- `replace_for_membership`
abbrev pub replace_for_membership : ℕ → List MembershipAgendaGrant → Tx Db (Unit {0})
replace_for_membership membership_id gs =
    raise_if (breaks_check gs) integrity >> modify (put_grants membership_id gs)

abbrev pub with_scopes :
    AgendaAccessScope → AgendaAccessScope → OrganizationMembership → OrganizationMembership
with_scopes view_scope edit_scope m = record m {
  agenda_view_scope = view_scope;
  agenda_edit_scope = edit_scope;
}

abbrev pub selected_rows : Bool → ℕ → List ℕ → List ℕ → List MembershipAgendaGrant
selected_rows true membership_id view_ids edit_ids = []
selected_rows false membership_id view_ids edit_ids =
    rows_for membership_id view_ids edit_ids (union (set_of view_ids) (set_of edit_ids))

-- Every id of a request is a professional of the organization.
abbrev pub assert_known : ℕ → List ℕ → List ℕ → Tx Db (Unit {0})
assert_known organization_id view_ids edit_ids s =
    raise_if
      (some_missing view_ids (professional_ids organization_id s)
        || some_missing edit_ids (professional_ids organization_id s))
      validation s

abbrev pub write_scopes :
    AgendaAccessScope → AgendaAccessScope → List ℕ → List ℕ → ℕ → Tx Db (Unit {0})
write_scopes view_scope edit_scope view_ids edit_ids membership_id =
    modify (save_membership membership_id (with_scopes view_scope edit_scope))
    >> replace_for_membership membership_id
        (selected_rows (is_all view_scope && is_all edit_scope) membership_id view_ids edit_ids)

unfoldable pub set_agenda_access :
    ℕ → ℕ → AgendaAccessScope → AgendaAccessScope → List ℕ → List ℕ → Tx Db (Unit {0})
set_agenda_access organization_id membership_id view_scope edit_scope view_ids edit_ids = do
  m ← get_membership_in_org organization_id membership_id
  raise_if (is_all edit_scope && not (is_all view_scope)) validation
  raise_if (not (is_all edit_scope) && (not (is_all view_scope) && some_missing edit_ids view_ids))
      validation
  assert_known organization_id view_ids edit_ids
  write_scopes view_scope edit_scope view_ids edit_ids m.id
