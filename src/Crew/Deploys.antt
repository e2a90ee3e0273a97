-- ===== src/Crew/Deploys.antt =====
-- Deploying an agent to a project and patching its seat (backend/app/services/agent_roster.py), with
-- the crew's actor (agent_actors.py). A read of the roster returns the one seat that its caller looks
-- up in it.
use opentheory.Base.{
  ℕ, ◌+◌, Bool, true, false, not, ◌&&◌, ◌||◌, Option, none, some, List, [], ◌∷◌, ◌==◌,
  if◌then◌else◌, is_none,
}
use opentheory.Base.Http.{
  HttpError, forbidden, not_found, conflict, server_error, Result, ok, err, ◌>>=◌, ◌>>◌, raise_if,
  or_raise,
}
use opentheory.Base.Text.{Text, text_eq, strip}
use opentheory.Crew.Store.{
  ProjectAgentStatus, active, suspended, ProjectMember, ProjectAgentMember, AgentActor, Store,
  Acting, has_project, owns, find_seat, update_seat,
}
use opentheory.Crew.Gates.{ensure_can_manage, ensure_is_member}
use opentheory.Crew.Roster.{
  crew_name, find_research_crew_actor, crew_id, revoke_live_tokens_for_actors, resume_project_agent,
}

-- The seat that the caller picks from `list_project_agents`, with the status if it is missing there.
abbrev pub listed : Store → ℕ → ℕ → Acting → HttpError → Result (ProjectAgentMember × Store)
listed store project actor acting missing = do
  ensure_is_member store project acting
  seat ← or_raise (find_seat project actor store.seats) missing
  ok (seat, store)

pub record AgentDeployRequest : Type 0 where
  pub display_name : Text
  pub token_budget_cap : Option ℕ
  pub usd_budget_cap : Option ℕ
  pub reuse_research_crew : Bool

-- `_project_owner_account_id`
unfoldable pub project_owner : ℕ → List ProjectMember → Option ℕ
project_owner project [] = none
project_owner project (row ∷ rows) =
    if owns project row then some row.account_id else project_owner project rows

abbrev pub adopt : ℕ → Option ℕ → List AgentActor → List AgentActor
adopt id account [] = []
adopt id account (row ∷ rows) =
    if row.id == id && is_none row.account_id
    then record row { account_id = account } ∷ rows
    else row ∷ adopt id account rows

abbrev pub new_seat : ℕ → ℕ → Option ℕ → Option ℕ → Option ℕ → ProjectAgentMember
new_seat project actor account token_cap usd_cap = record {
  project_id = project;
  actor_id = actor;
  deployed_by_account_id = account;
  responsible_account_id = account;
  status = active;
  token_budget_cap = token_cap;
  usd_budget_cap = usd_cap;
}

-- `_ensure_research_crew_roster`: nothing for a project or a seat that is there already.
unfoldable pub ensure_research_crew_roster : Store → ℕ → ℕ → Store
ensure_research_crew_roster store project actor =
    let owner = project_owner project store.members in
    if not (has_project project store.projects)
      || not (is_none (find_seat project actor store.seats))
    then store
    else record store {
      agents = adopt actor owner store.agents;
      seats = new_seat project actor owner none none ∷ store.seats;
    }

abbrev pub new_agent : ℕ → Text → Option ℕ → ℕ → AgentActor
new_agent id name account project = record {
  id = id;
  display_name = name;
  account_id = account;
  project_id = project;
}

abbrev pub with_agent : Store → Text → Option ℕ → ℕ → Store
with_agent store name account project = record store {
  agents = new_agent store.next_id name account project ∷ store.agents;
  next_id = store.next_id + 1;
}

abbrev pub crew_or_new : Store → ℕ → Option AgentActor → ℕ × Store
unfolding ensure_research_crew_roster
crew_or_new store project (some row) = (row.id, ensure_research_crew_roster store project row.id)
crew_or_new store project none = (
  store.next_id,
  ensure_research_crew_roster (with_agent store crew_name none project) project store.next_id,
)

unfoldable pub get_or_create_project_agent_actor : Store → ℕ → ℕ × Store
unfolding crew_or_new find_research_crew_actor
get_or_create_project_agent_actor store project =
    crew_or_new store project (find_research_crew_actor project store.agents)

-- Whether the crew's actor, if there is one, has a seat in the project.
abbrev pub crew_seated : Store → ℕ → Option ℕ → Bool
crew_seated store project none = false
crew_seated store project (some id) = not (is_none (find_seat project id store.seats))

-- The seat of the crew, added where it is missing and charged to the account that deploys it.
abbrev pub seat_crew :
    Store → ℕ → ℕ → ℕ → AgentDeployRequest → Option ProjectAgentMember → List ProjectAgentMember
seat_crew store project actor account payload none =
    new_seat project actor (some account) payload.token_budget_cap payload.usd_budget_cap
    ∷ store.seats
seat_crew store project actor account payload (some _) =
    update_seat project actor
      (λ row. record row {
        deployed_by_account_id = some account;
        responsible_account_id = some account;
        token_budget_cap = payload.token_budget_cap;
        usd_budget_cap = payload.usd_budget_cap;
      })
      store.seats

unfoldable pub deploy_crew :
    Store → ℕ → ℕ → Acting → AgentDeployRequest → Result (ProjectAgentMember × Store)
deploy_crew store project account acting payload = do
  raise_if (crew_seated store project (crew_id (find_research_crew_actor project store.agents)))
      conflict
  let made = get_or_create_project_agent_actor store project
  let seated =
      seat_crew made.1 project made.0 account payload (find_seat project made.0 made.1.seats)
  listed (record made.1 { seats = seated }) project made.0 acting server_error

-- The violation of the partial unique index on a project's crew actors.
abbrev pub crew_clash : Store → ℕ → Text → Bool
crew_clash store project name =
    text_eq name crew_name
    && not (is_none (crew_id (find_research_crew_actor project store.agents)))

unfoldable pub deploy_named :
    Store → ℕ → ℕ → Acting → AgentDeployRequest → Result (ProjectAgentMember × Store)
deploy_named store project account acting payload = do
  let name = strip payload.display_name
  raise_if (crew_clash store project name) server_error
  let base = with_agent store name (some account) project
  let seat =
      new_seat project store.next_id (some account) payload.token_budget_cap payload.usd_budget_cap
  listed (record base { seats = seat ∷ base.seats }) project store.next_id acting server_error

abbrev pub is_reuse : AgentDeployRequest → Bool
is_reuse payload = payload.reuse_research_crew || text_eq payload.display_name crew_name

unfoldable pub deploy_project_agent :
    Store → ℕ → Acting → AgentDeployRequest → Result (ProjectAgentMember × Store)
deploy_project_agent store project acting payload = do
  ensure_can_manage store project acting false
  account ← or_raise acting.account_id forbidden
  if is_reuse payload
      then deploy_crew store project account acting payload
      else deploy_named store project account acting payload

-- A cap is `some` where the field was set in the request, to a number or to no cap.
pub record AgentRosterPatch : Type 0 where
  pub status : Option ProjectAgentStatus
  pub token_budget_cap : Option (Option ℕ)
  pub usd_budget_cap : Option (Option ℕ)

abbrev pub set_or {ℓ} : {A : Type ℓ} → Option A → A → A
set_or none old = old
set_or (some new) old = new

abbrev pub set_caps : AgentRosterPatch → ProjectAgentMember → ProjectAgentMember
set_caps payload row = record row {
  token_budget_cap = set_or payload.token_budget_cap row.token_budget_cap;
  usd_budget_cap = set_or payload.usd_budget_cap row.usd_budget_cap;
}

abbrev pub edit_caps : Store → ℕ → ℕ → AgentRosterPatch → Store
edit_caps store project actor payload = record store {
  seats = update_seat project actor (set_caps payload) store.seats;
}

abbrev pub is_cap_edit : AgentRosterPatch → Bool
is_cap_edit payload = not (is_none payload.token_budget_cap && is_none payload.usd_budget_cap)

abbrev pub edit_if : Bool → Store → ℕ → ℕ → Acting → AgentRosterPatch → Result Store
edit_if false store project actor acting payload = ok store
edit_if true store project actor acting payload = do
  ensure_can_manage store project acting false
  seat ← or_raise (find_seat project actor store.seats) not_found
  ok (edit_caps store project actor payload)

abbrev pub status_eq : ProjectAgentStatus → ProjectAgentStatus → Bool
status_eq active active = true
status_eq suspended suspended = true
status_eq ProjectAgentStatus.revoked ProjectAgentStatus.revoked = true
status_eq _ _ = false

abbrev pub changeable : ProjectAgentStatus → ProjectAgentStatus → Result (Unit {0})
changeable status ProjectAgentStatus.revoked = err conflict
changeable status old = raise_if (status_eq status old) conflict

-- Suspending or revoking: the seat's status and caps, and the end of its tokens.
abbrev pub shut_seat : Store → ℕ → ℕ → ProjectAgentStatus → AgentRosterPatch → ℕ → Store
unfolding revoke_live_tokens_for_actors
shut_seat store project actor status payload now = record store {
  seats =
      update_seat project actor (λ row. record (set_caps payload row) { status = status })
        store.seats;
  tokens = revoke_live_tokens_for_actors project (actor ∷ []) now store.tokens;
}

abbrev pub patch_seat :
    Store
    → ℕ
    → ℕ
    → Acting
    → AgentRosterPatch
    → ℕ
    → Option ProjectAgentStatus
    → Result (ProjectAgentMember × Store)
unfolding resume_project_agent shut_seat
patch_seat store project actor acting payload now (some active) = do
  resumed ← resume_project_agent store project actor acting
  edited ← edit_if (is_cap_edit payload) resumed project actor acting payload
  listed edited project actor acting not_found
patch_seat store project actor acting payload now none = do
  ensure_can_manage store project acting false
  seat ← or_raise (find_seat project actor store.seats) not_found
  listed (edit_caps store project actor payload) project actor acting not_found
patch_seat store project actor acting payload now (some status) = do
  ensure_can_manage store project acting false
  seat ← or_raise (find_seat project actor store.seats) not_found
  changeable status seat.status
  listed (shut_seat store project actor status payload now) project actor acting not_found

unfoldable pub patch_project_agent :
    Store → ℕ → ℕ → Acting → AgentRosterPatch → ℕ → Result (ProjectAgentMember × Store)
unfolding patch_seat
patch_project_agent store project actor acting payload now =
    patch_seat store project actor acting payload now payload.status
