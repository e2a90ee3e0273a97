-- ===== src/Crew/Invitations.antt =====
-- backend/app/services/invitations.py, with the gates of backend/app/api/routes/invitations.py. The
-- account that an identifier names is what the lookup of accounts returned.
use opentheory.Base.{
  ℕ, ◌+◌, ◌-◌, ◌/◌, Bool, true, false, not, ◌&&◌, Option, none, some, List, [], ◌∷◌, ◌==◌,
  if◌then◌else◌, is_none, opt_eq,
}
use opentheory.Base.Http.{
  ◌>>=◌, ◌>>◌, forbidden, not_found, conflict, server_error, Result, ok, err, raise_if, or_raise,
}
use opentheory.Crew.Store.{
  ProjectRole, InvitationStatus, pending, accepted, declined, ProjectMember, ProjectInvitation,
  Store, Acting, membership, find_invitation,
}
use opentheory.Crew.Gates.{is_human, ensure_can_manage}
use opentheory.Crew.Members.{one_owner}
pub mod Inviting
pub mod Closing
pub mod Owning

abbrev pub is_pending : InvitationStatus → Bool
is_pending pending = true
is_pending _ = false

abbrev pub set_status : ℕ → InvitationStatus → List ProjectInvitation → List ProjectInvitation
set_status id status [] = []
set_status id status (row ∷ rows) =
    if row.id == id then record row { status = status } ∷ rows else row ∷ set_status id status rows

abbrev pub is_invitation_of : ℕ → ℕ → ProjectInvitation → Bool
is_invitation_of project invitee row =
    row.project_id == project && row.invitee_account_id == invitee

abbrev pub invitation_of : ℕ → ℕ → List ProjectInvitation → Option ProjectInvitation
invitation_of project invitee [] = none
invitation_of project invitee (row ∷ rows) =
    if is_invitation_of project invitee row then some row else invitation_of project invitee rows

-- A row of the pair that is there already is reset, whatever it was closed by.
abbrev pub reset_invitation :
    ℕ → ℕ → ProjectRole → Option ℕ → List ProjectInvitation → List ProjectInvitation
reset_invitation project invitee role inviter [] = []
reset_invitation project invitee role inviter (row ∷ rows) =
    if is_invitation_of project invitee row
    then record row { role = role; status = pending; invited_by_account_id = inviter } ∷ rows
    else row ∷ reset_invitation project invitee role inviter rows

abbrev pub not_pending : Option ProjectInvitation → Result (Unit {0})
not_pending none = ok tt
not_pending (some row) = raise_if (is_pending row.status) conflict

abbrev pub upsert : Store → ℕ → ℕ → ProjectRole → Option ℕ → Option ProjectInvitation → Store
upsert store project invitee role inviter (some _) = record store {
  invitations = reset_invitation project invitee role inviter store.invitations;
}
upsert store project invitee role inviter none =
    let fresh : ProjectInvitation = record {
      id = store.next_id;
      project_id = project;
      invitee_account_id = invitee;
      role = role;
      status = pending;
      invited_by_account_id = inviter;
    } in
    record store { invitations = fresh ∷ store.invitations; next_id = store.next_id + 1 }

unfoldable pub invite : Store → ℕ → Option ℕ → ProjectRole → Acting → Result Store
invite store project found role acting = do
  invitee ← or_raise found not_found
  raise_if (opt_eq (some invitee) acting.account_id) conflict
  raise_if (not (is_none (membership project invitee store.members))) conflict
  let existing = invitation_of project invitee store.invitations
  not_pending existing
  ok (upsert store project invitee role acting.account_id existing)

-- `_require_invitee`
abbrev pub require_invitee : ProjectInvitation → Acting → Result (Unit {0})
require_invitee row acting =
    raise_if (not (is_human acting.type && opt_eq acting.account_id (some row.invitee_account_id)))
      forbidden

abbrev pub mint_member :
    ProjectInvitation → Option ProjectMember → List ProjectMember → List ProjectMember
mint_member row (some _) members = members
mint_member row none members =
    record {
      project_id = row.project_id;
      account_id = row.invitee_account_id;
      role = row.role;
      invited_by_account_id = row.invited_by_account_id;
    }
    ∷ members

-- Accepting, by the status of the row: a repeated call changes nothing.
abbrev pub accept_row : Store → ProjectInvitation → InvitationStatus → Result Store
accept_row store row accepted = ok store
accept_row store row pending = do
  let members =
      mint_member row (membership row.project_id row.invitee_account_id store.members) store.members
  one_owner row.project_id members server_error
  ok (record store {
    members = members;
    invitations = set_status row.id accepted store.invitations;
  })
accept_row store row _ = err conflict

unfoldable pub accept : Store → ℕ → Acting → Result Store
accept store id acting = do
  row ← or_raise (find_invitation id store.invitations) not_found
  require_invitee row acting
  accept_row store row row.status

abbrev pub decline_row : Store → ProjectInvitation → InvitationStatus → Result Store
decline_row store row declined = ok store
decline_row store row pending =
    ok (record store { invitations = set_status row.id declined store.invitations })
decline_row store row _ = err conflict

unfoldable pub decline : Store → ℕ → Acting → Result Store
decline store id acting = do
  row ← or_raise (find_invitation id store.invitations) not_found
  require_invitee row acting
  decline_row store row row.status

abbrev pub revoke_row : Store → ProjectInvitation → InvitationStatus → Result Store
revoke_row store row InvitationStatus.revoked = ok store
revoke_row store row pending =
    ok (record store { invitations = set_status row.id InvitationStatus.revoked store.invitations })
revoke_row store row _ = err conflict

unfoldable pub revoke : Store → ℕ → ℕ → Result Store
revoke store project id = do
  row ← or_raise (find_invitation id store.invitations) not_found
  raise_if (not (row.project_id == project)) not_found
  revoke_row store row row.status

-- The routes that make and revoke an invitation.
unfoldable pub create_invitation : Store → ℕ → Option ℕ → ProjectRole → Acting → Result Store
create_invitation store project found role acting = do
  ensure_can_manage store project acting false
  invite store project found role acting

unfoldable pub revoke_invitation : Store → ℕ → ℕ → Acting → Result Store
revoke_invitation store project id acting = do
  ensure_can_manage store project acting false
  revoke store project id
