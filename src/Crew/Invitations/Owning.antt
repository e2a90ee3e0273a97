-- ===== src/Crew/Invitations/Owning.antt =====
-- An invitation to own a project that has an owner (invitations.py: invite, accept).
use opentheory.Base.{ℕ, ◌≡◌, refl, none, some, ==_refl}
use opentheory.Base.Http.{server_error, ok, err}
use mathlib.Core.Path.{subst}
use opentheory.Ledger.Store.{human}
use opentheory.Crew.Store.{
  owner, pending, ProjectInvitation, Store, Acting, find_invitation, owners,
}
use opentheory.Crew.Invitations.{invitation_of, upsert, accept, create_invitation}
use opentheory.Crew.Invitations.Inviting.{create_invitation_checks}

-- A first invitation of an account to own a project that has its one owner is made, and is pending
-- under a new id, but the invitee's acceptance of it fails with a 500.
pub owner_invitation_fails :
    (store : Store) (project invitee : ℕ) (acting who : Acting) {after : Store}
    → create_invitation store project (some invitee) owner acting ≡ ok after
    → invitation_of project invitee store.invitations ≡ none
    → owners project store.members ≡ 1
    → who.type ≡ human
    → who.account_id ≡ some invitee
    → (row : ProjectInvitation) × (find_invitation store.next_id after.invitations ≡ some row)
      × (row.role ≡ owner)
      × (row.status ≡ pending)
      × (accept after store.next_id who ≡ err server_error)
unfolding accept
owner_invitation_fails store project invitee acting who {after} h first one is mine =
    let (stranger, same) = create_invitation_checks store project invitee owner acting h in
    let e : upsert store project invitee owner acting.account_id none ≡ after = rw first at same in
    subst
      (λ s.
        (row : ProjectInvitation) × (find_invitation store.next_id s.invitations ≡ some row)
        × (row.role ≡ owner)
        × (row.status ≡ pending)
        × (accept s store.next_id who ≡ err server_error))
      e
      (
        record {
          id = store.next_id;
          project_id = project;
          invitee_account_id = invitee;
          role = owner;
          status = pending;
          invited_by_account_id = acting.account_id;
        },
        rw (==_refl store.next_id),
        refl,
        refl,
        rw (==_refl store.next_id, is, mine, ==_refl invitee, stranger, ==_refl project, one),
      )
