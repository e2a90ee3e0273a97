-- ===== src/Crew/Step.antt =====
-- What one call on the members, invitations, seats and tokens of projects may change
-- (project_members.py, invitations.py, agent_roster.py, agent_tokens.py), and how calls compose.
use opentheory.Base.{ℕ, ◌≤◌, ◌<◌, ◌≡◌, refl, Option, none, some, List, arith, All}
use opentheory.Crew.Store.{
  InvitationStatus, ProjectAgentStatus, ProjectMember, ProjectInvitation, ProjectAgentMember,
  AgentSessionToken, AgentActor, Store, owners, find_seat, find_invitation,
}

abbrev pub status_of_seat : Option ProjectAgentMember → Option ProjectAgentStatus
status_of_seat none = none
status_of_seat (some row) = some row.status

-- The status of the seat of the project and the actor.
abbrev pub seat_status : ℕ → ℕ → List ProjectAgentMember → Option ProjectAgentStatus
seat_status project actor rows = status_of_seat (find_seat project actor rows)

-- A token that is not revoked has an active seat.
abbrev pub IsBacked : List ProjectAgentMember → AgentSessionToken → Type 0
IsBacked seats row =
    row.revoked_at ≡ none
    → seat_status row.project_id row.actor_id seats ≡ some ProjectAgentStatus.active

abbrev pub IsLive : Store → Type 0
IsLive store = All (IsBacked store.seats) store.tokens

abbrev pub status_of_row : Option ProjectInvitation → Option InvitationStatus
status_of_row none = none
status_of_row (some row) = some row.status

abbrev pub invitation_status : ℕ → List ProjectInvitation → Option InvitationStatus
invitation_status id rows = status_of_row (find_invitation id rows)

-- Which moves of the status of an invitation a step may make, by the id.
abbrev pub Moves : Type 1
Moves = ℕ → Option InvitationStatus → Option InvitationStatus → Type 0

abbrev pub Still : Moves
Still id old new = old ≡ new

pub record StepBy (M : Moves) (old new : Store) : Type 0 where
  pub next_grows : old.next_id ≤ new.next_id
  pub owner_kept :
      (project : ℕ)
      → project < old.next_id
      → owners project old.members ≡ 1
      → owners project new.members ≡ 1
  pub revoked_kept :
      (project actor : ℕ)
      → actor < old.next_id
      → seat_status project actor old.seats ≡ some ProjectAgentStatus.revoked
      → seat_status project actor new.seats ≡ some ProjectAgentStatus.revoked
  pub live_kept : IsLive old → IsLive new
  pub moves :
      (id : ℕ) → M id (invitation_status id old.invitations) (invitation_status id new.invitations)

-- A step that leaves the invitations as they are.
abbrev pub Step : Store → Store → Type 0
Step old new = StepBy Still old new

pub Step-refl : (store : Store) → Step store store
Step-refl store = record {
  next_grows = omega arith;
  owner_kept = λ project used one. one;
  revoked_kept = λ project actor used shut. shut;
  live_kept = λ live. live;
  moves = λ id. refl;
}

pub StepBy-map :
    (M N : Moves)
    → ((id : ℕ) (a b : Option InvitationStatus) → M id a b → N id a b)
    → {old new : Store} → StepBy M old new
    → StepBy N old new
StepBy-map M N wider s = record {
  next_grows = s.next_grows;
  owner_kept = s.owner_kept;
  revoked_kept = s.revoked_kept;
  live_kept = s.live_kept;
  moves = λ id. wider id _ _ (s.moves id);
}

pub Step-then : (M : Moves) {a b c : Store} → Step a b → StepBy M b c → StepBy M a c
Step-then M {a} {b} {c} s t = record {
  next_grows = (let p = s.next_grows in let q = t.next_grows in omega arith);
  owner_kept = λ project used one.
      (let p = s.next_grows in t.owner_kept project (omega arith) (s.owner_kept project used one));
  revoked_kept = λ project actor used shut.
      (let p = s.next_grows in
        t.revoked_kept project actor (omega arith) (s.revoked_kept project actor used shut));
  live_kept = λ live. t.live_kept (s.live_kept live);
  moves = λ id. rw (s.moves id) (t.moves id);
}

pub Step-trans : {a b c : Store} → Step a b → Step b c → Step a c
Step-trans s t = Step-then Still s t

-- A call that writes only members.
pub members-Step :
    (store : Store) (members : List ProjectMember)
    → ((project : ℕ)
        → project < store.next_id
        → owners project store.members ≡ 1
        → owners project members ≡ 1)
    → Step store (record store { members = members })
members-Step store members kept = record {
  next_grows = omega arith;
  owner_kept = kept;
  revoked_kept = λ project actor used shut. shut;
  live_kept = λ live. live;
  moves = λ id. refl;
}

-- A call that writes only invitations.
pub invitations-StepBy :
    (M : Moves) (store : Store) (invitations : List ProjectInvitation)
    → ((id : ℕ) → M id (invitation_status id store.invitations) (invitation_status id invitations))
    → StepBy M store (record store { invitations = invitations })
invitations-StepBy M store invitations moved = record {
  next_grows = omega arith;
  owner_kept = λ project used one. one;
  revoked_kept = λ project actor used shut. shut;
  live_kept = λ live. live;
  moves = moved;
}

-- A call that writes seats, tokens and the actors of agents.
pub seats-Step :
    (store : Store) (seats : List ProjectAgentMember) (tokens : List AgentSessionToken)
    (agents : List AgentActor) (next_id : ℕ)
    → store.next_id ≤ next_id
    → ((project actor : ℕ)
        → actor < store.next_id
        → seat_status project actor store.seats ≡ some ProjectAgentStatus.revoked
        → seat_status project actor seats ≡ some ProjectAgentStatus.revoked)
    → (All (IsBacked store.seats) store.tokens → All (IsBacked seats) tokens)
    → Step store
        (record store { seats = seats; tokens = tokens; agents = agents; next_id = next_id })
seats-Step store seats tokens agents next_id grows revoked live = record {
  next_grows = grows;
  owner_kept = λ project used one. one;
  revoked_kept = revoked;
  live_kept = live;
  moves = λ id. refl;
}
