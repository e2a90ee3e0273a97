-- ===== src/Crew/Store.antt =====
-- The rows behind a project's governance (backend/app/models/project_member.py,
-- project_invitation.py, project_agent_member.py, agent_session_token.py and actor.py) and the reads
-- of them. As in the ledger, lists are newest first and fresh ids come from a counter.
use opentheory.Base.{
  ℕ, ◌+◌, Bool, true, false, ◌&&◌, ◌||◌, Option, none, some, List, [], ◌∷◌, ◌==◌, if◌then◌else◌,
}
use opentheory.Base.Text.{Text, text_eq}
use opentheory.Ledger.Store.{ActorType}

pub data ProjectRole : Type 0 where
  owner admin : ProjectRole

abbrev pub is_owner : ProjectRole → Bool
is_owner owner = true
is_owner admin = false

pub data InvitationStatus : Type 0 where
  pending accepted declined revoked : InvitationStatus

pub data ProjectAgentStatus : Type 0 where
  active suspended revoked : ProjectAgentStatus

abbrev pub is_active : ProjectAgentStatus → Bool
is_active active = true
is_active _ = false

pub record Project : Type 0 where
  pub id : ℕ
  pub slug : Text

pub record ProjectMember : Type 0 where
  pub project_id : ℕ
  pub account_id : ℕ
  pub role : ProjectRole
  pub invited_by_account_id : Option ℕ

pub record ProjectInvitation : Type 0 where
  pub id : ℕ
  pub project_id : ℕ
  pub invitee_account_id : ℕ
  pub role : ProjectRole
  pub status : InvitationStatus
  pub invited_by_account_id : Option ℕ

-- A seat on the roster; the one role, researcher, is left out. The dollar cap is in millionths.
pub record ProjectAgentMember : Type 0 where
  pub project_id : ℕ
  pub actor_id : ℕ
  pub deployed_by_account_id : Option ℕ
  pub responsible_account_id : Option ℕ
  pub status : ProjectAgentStatus
  pub token_budget_cap : Option ℕ
  pub usd_budget_cap : Option ℕ

pub record AgentSessionToken : Type 0 where
  pub id : ℕ
  pub project_id : ℕ
  pub actor_id : ℕ
  pub minted_by_account_id : Option ℕ
  pub minted_by_actor_id : Option ℕ
  pub token_hash : Text
  pub expires_at : ℕ
  pub revoked_at : Option ℕ
  pub last_used_at : Option ℕ

-- An actor of type agent; `project_id` is the key of its metadata.
pub record AgentActor : Type 0 where
  pub id : ℕ
  pub display_name : Text
  pub account_id : Option ℕ
  pub project_id : ℕ

pub record Store : Type 0 where
  pub projects : List Project
  pub members : List ProjectMember
  pub invitations : List ProjectInvitation
  pub seats : List ProjectAgentMember
  pub tokens : List AgentSessionToken
  pub agents : List AgentActor
  pub next_id : ℕ

-- The acting principal. An agent that came with a session token is bound to the token's project.
pub record Acting : Type 0 where
  pub id : ℕ
  pub type : ActorType
  pub account_id : Option ℕ
  pub token_project : Option ℕ

abbrev pub has_project : ℕ → List Project → Bool
has_project id [] = false
has_project id (row ∷ rows) = row.id == id || has_project id rows

abbrev pub slug_taken : Text → List Project → Bool
slug_taken slug [] = false
slug_taken slug (row ∷ rows) = text_eq row.slug slug || slug_taken slug rows

abbrev pub is_member_row : ℕ → ℕ → ProjectMember → Bool
is_member_row project account row = row.project_id == project && row.account_id == account

-- `_membership`
abbrev pub membership : ℕ → ℕ → List ProjectMember → Option ProjectMember
membership project account [] = none
membership project account (row ∷ rows) =
    if is_member_row project account row then some row else membership project account rows

abbrev pub set_role : ℕ → ℕ → ProjectRole → List ProjectMember → List ProjectMember
set_role project account role [] = []
set_role project account role (row ∷ rows) =
    if is_member_row project account row
    then record row { role = role } ∷ rows
    else row ∷ set_role project account role rows

abbrev pub drop_member : ℕ → ℕ → List ProjectMember → List ProjectMember
drop_member project account [] = []
drop_member project account (row ∷ rows) =
    if is_member_row project account row then rows else row ∷ drop_member project account rows

abbrev pub owns : ℕ → ProjectMember → Bool
owns project row = row.project_id == project && is_owner row.role

-- How many rows the index `uq_project_one_owner` sees for the project.
abbrev pub owners : ℕ → List ProjectMember → ℕ
owners project [] = 0
owners project (row ∷ rows) = (if owns project row then 1 else 0) + owners project rows

abbrev pub is_seat : ℕ → ℕ → ProjectAgentMember → Bool
is_seat project actor row = row.project_id == project && row.actor_id == actor

-- `get_roster_row`
abbrev pub find_seat : ℕ → ℕ → List ProjectAgentMember → Option ProjectAgentMember
find_seat project actor [] = none
find_seat project actor (row ∷ rows) =
    if is_seat project actor row then some row else find_seat project actor rows

-- A write to the seat of this project and actor.
abbrev pub update_seat :
    ℕ
    → ℕ
    → (ProjectAgentMember → ProjectAgentMember)
    → List ProjectAgentMember
    → List ProjectAgentMember
update_seat project actor change [] = []
update_seat project actor change (row ∷ rows) =
    if is_seat project actor row
    then change row ∷ rows
    else row ∷ update_seat project actor change rows

abbrev pub find_token : ℕ → List AgentSessionToken → Option AgentSessionToken
find_token id [] = none
find_token id (row ∷ rows) = if row.id == id then some row else find_token id rows

abbrev pub update_token :
    ℕ → (AgentSessionToken → AgentSessionToken) → List AgentSessionToken → List AgentSessionToken
update_token id change [] = []
update_token id change (row ∷ rows) =
    if row.id == id then change row ∷ rows else row ∷ update_token id change rows

abbrev pub find_agent : ℕ → List AgentActor → Option AgentActor
find_agent id [] = none
find_agent id (row ∷ rows) = if row.id == id then some row else find_agent id rows

abbrev pub find_invitation : ℕ → List ProjectInvitation → Option ProjectInvitation
find_invitation id [] = none
find_invitation id (row ∷ rows) = if row.id == id then some row else find_invitation id rows
