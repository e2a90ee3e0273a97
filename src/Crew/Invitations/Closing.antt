-- ===== src/Crew/Invitations/Closing.antt =====
-- Accepting, declining and revoking an invitation (invitations.py) as steps.
use opentheory.Base.{
  ℕ, ◌≡◌, refl, inl, inr, false, not, Option, none, some, List, [], ◌∷◌, arith, ltb, ◌==◌,
  Bool-cases,
}
use opentheory.Base.Http.{
  not_found, server_error, ok, raise_if, or_raise, bind_ok, or_raise_ok, raise_if_ok,
}
use mathlib.Core.Path.{subst}
use opentheory.Ledger.Chokepoint.{ok-injective}
use opentheory.Crew.Store.{
  InvitationStatus, pending, accepted, declined, ProjectMember, ProjectInvitation, Store, Acting,
  membership, find_invitation, owners,
}
use opentheory.Crew.Gates.{ensure_can_manage}
use opentheory.Crew.Members.{one_owner}
use opentheory.Crew.Invitations.{
  set_status, require_invitee, mint_member, accept_row, accept, decline_row, decline, revoke_row,
  revoke, revoke_invitation,
}
use opentheory.Crew.Step.{
  Still, StepBy, StepBy-map, Step-refl, Step-then, members-Step, invitations-StepBy,
}
use opentheory.Crew.Invitations.Inviting.{Closing, still-Closing, set_status-Closes}

-- A member row minted by an invitation gives no project a second owner.
mint_member-owners :
    (row : ProjectInvitation) (o : Option ProjectMember) (members : List ProjectMember) (p : ℕ)
    → ltb 1 (owners row.project_id (mint_member row o members)) ≡ false
    → owners p members ≡ 1
    → owners p (mint_member row o members) ≡ 1
mint_member-owners row (some m) members p single one = one
mint_member-owners row none members p single one = elim (Bool-cases (row.project_id == p)) [
  | inl here ↦ (let same : row.project_id ≡ p = ground arith in ground arith)
  | inr there ↦ ground arith
]

-- The closing of a pending invitation, on a store with the same invitations.
close-Step :
    (store : Store) (id : ℕ) (status : InvitationStatus) {row : ProjectInvitation}
    → find_invitation id store.invitations ≡ some row
    → row.id ≡ id
    → row.status ≡ pending
    → StepBy
        (Closing status id)
        store
        (record store { invitations = set_status row.id status store.invitations })
close-Step store id status {row} found is open_row =
    invitations-StepBy (Closing status id) store _
      λ i. rw is (set_status-Closes id i status store.invitations found open_row)

pub find_invitation-id :
    (id : ℕ) (rows : List ProjectInvitation) {row : ProjectInvitation}
    → find_invitation id rows ≡ some row
    → row.id ≡ id
find_invitation-id id [] h = cc
find_invitation-id id (first ∷ rows) {row} h = elim (Bool-cases (first.id == id)) [
  | inl here ↦
      let e : some first ≡ some row = rw here at h in
      let same : first ≡ row = cc in rw (← same) (ground arith)
  | inr there ↦ find_invitation-id id rows (rw there at h)
]

module _ (store : Store) (id : ℕ) {row : ProjectInvitation}
    (found : find_invitation id store.invitations ≡ some row) {after : Store} where
  accept_row-Step :
      (status : InvitationStatus)
      → row.status ≡ status
      → accept_row store row status ≡ ok after
      → StepBy (Closing accepted id) store after
  accept_row-Step accepted is h =
      subst (λ s. StepBy (Closing accepted id) store s) (ok-injective h)
        (StepBy-map Still _ (still-Closing _ id) (Step-refl store))
  accept_row-Step pending is h =
      let members =
        mint_member row (membership row.project_id row.invitee_account_id store.members)
          store.members in
      let c1 = bind_ok (one_owner row.project_id members server_error) _ h in
      subst (λ s. StepBy (Closing accepted id) store s) (ok-injective c1.2)
        (Step-then (Closing accepted id)
          (members-Step store members λ p used one.
            mint_member-owners row (membership row.project_id row.invitee_account_id store.members)
              store.members p (raise_if_ok _ server_error c1.1) one)
          (close-Step (record store { members = members }) id accepted found
            (find_invitation-id id store.invitations found) is))
  accept_row-Step declined is h = cc
  accept_row-Step InvitationStatus.revoked is h = cc

  decline_row-Step :
      (status : InvitationStatus)
      → row.status ≡ status
      → decline_row store row status ≡ ok after
      → StepBy (Closing declined id) store after
  decline_row-Step declined is h =
      subst (λ s. StepBy (Closing declined id) store s) (ok-injective h)
        (StepBy-map Still _ (still-Closing _ id) (Step-refl store))
  decline_row-Step pending is h =
      subst (λ s. StepBy (Closing declined id) store s) (ok-injective h)
        (close-Step store id declined found (find_invitation-id id store.invitations found) is)
  decline_row-Step accepted is h = cc
  decline_row-Step InvitationStatus.revoked is h = cc

  revoke_row-Step :
      (status : InvitationStatus)
      → row.status ≡ status
      → revoke_row store row status ≡ ok after
      → StepBy (Closing InvitationStatus.revoked id) store after
  revoke_row-Step InvitationStatus.revoked is h =
      subst (λ s. StepBy (Closing InvitationStatus.revoked id) store s) (ok-injective h)
        (StepBy-map Still _ (still-Closing _ id) (Step-refl store))
  revoke_row-Step pending is h =
      subst (λ s. StepBy (Closing InvitationStatus.revoked id) store s) (ok-injective h)
        (close-Step store id InvitationStatus.revoked found
          (find_invitation-id id store.invitations found) is)
  revoke_row-Step accepted is h = cc
  revoke_row-Step declined is h = cc

pub accept-Step :
    (store : Store) (id : ℕ) (acting : Acting) {after : Store}
    → accept store id acting ≡ ok after
    → StepBy (Closing accepted id) store after
unfolding accept
accept-Step store id acting h =
    let c1 = bind_ok (or_raise (find_invitation id store.invitations) not_found) _ h in
    let c2 = bind_ok (require_invitee c1.0 acting) _ c1.2 in
    accept_row-Step store id (or_raise_ok _ not_found c1.1) c1.0.status refl c2.2

pub decline-Step :
    (store : Store) (id : ℕ) (acting : Acting) {after : Store}
    → decline store id acting ≡ ok after
    → StepBy (Closing declined id) store after
unfolding decline
decline-Step store id acting h =
    let c1 = bind_ok (or_raise (find_invitation id store.invitations) not_found) _ h in
    let c2 = bind_ok (require_invitee c1.0 acting) _ c1.2 in
    decline_row-Step store id (or_raise_ok _ not_found c1.1) c1.0.status refl c2.2

pub revoke_invitation-Step :
    (store : Store) (project id : ℕ) (acting : Acting) {after : Store}
    → revoke_invitation store project id acting ≡ ok after
    → StepBy (Closing InvitationStatus.revoked id) store after
unfolding revoke_invitation revoke
revoke_invitation-Step store project id acting h =
    let c0 = bind_ok (ensure_can_manage store project acting false) _ h in
    let c1 = bind_ok (or_raise (find_invitation id store.invitations) not_found) _ c0.2 in
    let c2 = bind_ok (raise_if (not (c1.0.project_id == project)) not_found) _ c1.2 in
    revoke_row-Step store id (or_raise_ok _ not_found c1.1) c1.0.status refl c2.2
