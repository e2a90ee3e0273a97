-- ===== src/Crew/Invitations/Inviting.antt =====
-- Making an invitation (invitations.py) as a step, and the moves of an invitation's status.
use opentheory.Base.{
  ℕ, ◌≡◌, refl, ◌≢◌, inl, inr, true, false, not, Option, none, some, List, [], ◌∷◌, arith, ◌==◌,
  Bool-cases, is_none, opt_eq,
}
use opentheory.Base.Http.{
  HttpError, not_found, conflict, ok, raise_if, or_raise, bind_ok, raise_if_ok,
}
use mathlib.Core.Path.{subst}
use opentheory.Ledger.Chokepoint.{ok-injective}
use opentheory.Crew.Store.{
  ProjectRole, InvitationStatus, pending, accepted, declined, ProjectInvitation, Store, Acting,
  membership, find_invitation,
}
use opentheory.Crew.Gates.{ensure_can_manage}
use opentheory.Crew.Invitations.{
  set_status, is_invitation_of, invitation_of, reset_invitation, not_pending, upsert, invite,
  create_invitation,
}
use opentheory.Crew.Step.{invitation_status, Moves, StepBy, invitations-StepBy}

-- What an invitation may become: it is asked for, or asked for again once it is closed; while it is
-- pending it is closed, by whom its id names.
pub data Asks : Option InvitationStatus → Option InvitationStatus → Type 0 where
  idle : {o : Option InvitationStatus} → Asks o o
  ask : Asks none (some pending)
  ask_again : {closed : InvitationStatus} → closed ≢ pending → Asks (some closed) (some pending)

pub data Closes (status : InvitationStatus) (named : ℕ)
    : ℕ → Option InvitationStatus → Option InvitationStatus → Type 0 where
  untouched : {id : ℕ} {o : Option InvitationStatus} → Closes status named id o o
  closes : {id : ℕ} → id ≡ named → Closes status named id (some pending) (some status)

abbrev pub Asking : Moves
Asking id old new = Asks old new

abbrev pub Closing : InvitationStatus → ℕ → Moves
Closing status named id old new = Closes status named id old new

pub still-Closing :
    (status : InvitationStatus) (named id : ℕ) (a b : Option InvitationStatus)
    → a ≡ b
    → Closing status named id a b
still-Closing status named id a b same = rw same untouched

same_id : (a b c : ℕ) → (a == b) ≡ true → (a == c) ≡ true → c ≡ b
same_id a b c h k = ground arith

-- Closing the pending row that an id finds.
pub set_status-Closes :
    (id i : ℕ) (status : InvitationStatus) (rows : List ProjectInvitation) {row : ProjectInvitation}
    → find_invitation id rows ≡ some row
    → row.status ≡ pending
    → Closes status id i
        (invitation_status i rows)
        (invitation_status i (set_status id status rows))
set_status-Closes id i status [] found open_row = cc
set_status-Closes id i status (first ∷ rows) {row} found open_row =
    elim (Bool-cases (first.id == id)) [
      | inl here ↦
          let e : some first ≡ some row = rw here at found in
          let same : first ≡ row = cc in
          let was : first.status ≡ pending = rw same open_row in
          elim (Bool-cases (first.id == i)) [
            | inl mine ↦ rw (here, mine, was) (closes (same_id first.id id i here mine))
            | inr other ↦ rw (here, other) untouched
          ]
      | inr there ↦ elim (Bool-cases (first.id == i)) [
        | inl mine ↦ rw (there, mine) untouched
        | inr other ↦
            rw (there, other) (set_status-Closes id i status rows (rw there at found) open_row)
      ]
    ]

-- Asking again over the closed row of the pair.
reset_invitation-Asks :
    (i project invitee : ℕ) (role : ProjectRole) (inviter : Option ℕ)
    (rows : List ProjectInvitation) {row : ProjectInvitation}
    → invitation_of project invitee rows ≡ some row
    → row.status ≢ pending
    → Asks
        (invitation_status i rows)
        (invitation_status i (reset_invitation project invitee role inviter rows))
reset_invitation-Asks i project invitee role inviter [] found closed = cc
reset_invitation-Asks i project invitee role inviter (first ∷ rows) {row} found closed =
    elim (Bool-cases (is_invitation_of project invitee first)) [
      | inl here ↦
          let e : some first ≡ some row = rw here at found in
          let same : first ≡ row = cc in
          let was : first.status ≢ pending = rw same closed in
          elim (Bool-cases (first.id == i)) [
            | inl mine ↦ rw (here, mine) (ask_again was)
            | inr other ↦ rw (here, other) idle
          ]
      | inr there ↦ elim (Bool-cases (first.id == i)) [
        | inl mine ↦ rw (there, mine) idle
        | inr other ↦
            rw (there, other)
              (reset_invitation-Asks i project invitee role inviter rows (rw there at found) closed)
      ]
    ]

not_pending_ok :
    (row : ProjectInvitation) {x : Unit {0}} → not_pending (some row) ≡ ok x → row.status ≢ pending
not_pending_ok row h = λ is. (let bad : true ≡ false = rw is at (raise_if_ok _ conflict h) in cc)

-- Whatever the row was, a pending one can come of it.
Asks-pending : (o : Option InvitationStatus) → Asks o (some pending)
Asks-pending none = ask
Asks-pending (some pending) = idle
Asks-pending (some accepted) = ask_again (λ e. cc)
Asks-pending (some declined) = ask_again (λ e. cc)
Asks-pending (some InvitationStatus.revoked) = ask_again (λ e. cc)

upsert-Step :
    (store : Store) (project invitee : ℕ) (role : ProjectRole) (inviter : Option ℕ)
    (o : Option ProjectInvitation) {x : Unit {0}}
    → invitation_of project invitee store.invitations ≡ o
    → not_pending o ≡ ok x
    → StepBy Asking store (upsert store project invitee role inviter o)
upsert-Step store project invitee role inviter (some row) found closed =
    invitations-StepBy Asking store _ λ i.
      reset_invitation-Asks i project invitee role inviter store.invitations found
        (not_pending_ok row closed)
upsert-Step store project invitee role inviter none found closed = record {
  next_grows = omega arith;
  owner_kept = λ p used one. one;
  revoked_kept = λ p a used shut. shut;
  live_kept = λ live. live;
  moves = λ i. elim (Bool-cases (store.next_id == i)) [
    | inl mine ↦ rw mine (Asks-pending (invitation_status i store.invitations))
    | inr other ↦ rw other idle
  ];
}

is_none_ok {ℓ} :
    {A : Type ℓ} (o : Option A) (e : HttpError) {x : Unit {0}}
    → raise_if (not (is_none o)) e ≡ ok x
    → o ≡ none
is_none_ok none e h = refl
is_none_ok (some a) e h = cc

-- What an invitation that was made passed.
pub create_invitation_checks :
    (store : Store) (project invitee : ℕ) (role : ProjectRole) (acting : Acting) {after : Store}
    → create_invitation store project (some invitee) role acting ≡ ok after
    → (membership project invitee store.members ≡ none)
      × (upsert store project invitee role acting.account_id
            (invitation_of project invitee store.invitations)
          ≡ after)
unfolding create_invitation invite
create_invitation_checks store project invitee role acting h =
    let c1 = bind_ok (ensure_can_manage store project acting false) _ h in
    let c3 = bind_ok (raise_if (opt_eq (some invitee) acting.account_id) conflict) _ c1.2 in
    let c4 =
      bind_ok (raise_if (not (is_none (membership project invitee store.members))) conflict) _
        c3.2 in
    let c5 = bind_ok (not_pending (invitation_of project invitee store.invitations)) _ c4.2 in
    (is_none_ok (membership project invitee store.members) conflict c4.1, ok-injective c5.2)

pub create_invitation-Step :
    (store : Store) (project : ℕ) (found : Option ℕ) (role : ProjectRole) (acting : Acting)
    {after : Store}
    → create_invitation store project found role acting ≡ ok after
    → StepBy Asking store after
unfolding create_invitation invite
create_invitation-Step store project found role acting h =
    let c1 = bind_ok (ensure_can_manage store project acting false) _ h in
    let c2 = bind_ok (or_raise found not_found) _ c1.2 in
    let c3 = bind_ok (raise_if (opt_eq (some c2.0) acting.account_id) conflict) _ c2.2 in
    let c4 =
      bind_ok (raise_if (not (is_none (membership project c2.0 store.members))) conflict) _ c3.2 in
    let c5 = bind_ok (not_pending (invitation_of project c2.0 store.invitations)) _ c4.2 in
    subst (λ s. StepBy Asking store s) (ok-injective c5.2)
      (upsert-Step store project c2.0 role acting.account_id
        (invitation_of project c2.0 store.invitations) refl c5.1)
