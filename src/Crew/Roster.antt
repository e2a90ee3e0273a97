-- ===== src/Crew/Roster.antt =====
-- backend/app/services/agent_roster.py and agent_actors.py: the seats of a project's agents. `now` is
-- the clock's reading.
use opentheory.Base.{
  ℕ, Bool, true, ◌&&◌, ◌||◌, Option, none, some, List, [], ◌∷◌, ◌==◌, if◌then◌else◌, is_none,
  opt_eq, elem,
}
use opentheory.Base.Http.{not_found, conflict, Result, ok, err, ◌>>=◌, ◌>>◌, or_raise}
use opentheory.Base.Text.{Text, codes, text_eq}
use opentheory.Crew.Store.{
  ProjectAgentStatus, active, suspended, ProjectAgentMember, AgentSessionToken, AgentActor, Store,
  Acting, find_seat, update_seat,
}
use opentheory.Crew.Gates.{ensure_can_manage}

abbrev pub crew_name : Text
crew_name = codes "Research crew"

abbrev pub is_crew_of : ℕ → AgentActor → Bool
is_crew_of project row = row.project_id == project && text_eq row.display_name crew_name

unfoldable pub find_research_crew_actor : ℕ → List AgentActor → Option AgentActor
find_research_crew_actor project [] = none
find_research_crew_actor project (row ∷ rows) =
    if is_crew_of project row then some row else find_research_crew_actor project rows

abbrev pub crew_id : Option AgentActor → Option ℕ
crew_id none = none
crew_id (some row) = some row.id

-- Whether the token is a live one of the project and of one of the actors.
abbrev pub is_live_of : ℕ → List ℕ → AgentSessionToken → Bool
is_live_of project actors row =
    row.project_id == project && (elem row.actor_id actors && is_none row.revoked_at)

unfoldable pub revoke_live_tokens_for_actors :
    ℕ → List ℕ → ℕ → List AgentSessionToken → List AgentSessionToken
revoke_live_tokens_for_actors project actors now [] = []
revoke_live_tokens_for_actors project actors now (row ∷ rows) =
    (if is_live_of project actors row then record row { revoked_at = some now } else row)
    ∷ revoke_live_tokens_for_actors project actors now rows

-- `is_crew or is_outgoing`, on a row of the project.
abbrev pub is_hit : ℕ → Option ℕ → ℕ → ProjectAgentMember → Bool
is_hit project crew outgoing row =
    row.project_id == project
    && (opt_eq (some row.actor_id) crew || opt_eq row.responsible_account_id (some outgoing))

abbrev pub suspend : ProjectAgentMember → ProjectAgentStatus → ProjectAgentMember
suspend row active = record row { status = suspended }
suspend row _ = row

abbrev pub suspend_hit : ℕ → Option ℕ → ℕ → ProjectAgentMember → ProjectAgentMember
suspend_hit project crew outgoing row =
    if is_hit project crew outgoing row then suspend row row.status else row

unfoldable pub suspend_hits : ℕ → Option ℕ → ℕ → List ProjectAgentMember → List ProjectAgentMember
suspend_hits project crew outgoing [] = []
suspend_hits project crew outgoing (row ∷ rows) =
    suspend_hit project crew outgoing row ∷ suspend_hits project crew outgoing rows

unfoldable pub hit_actors : ℕ → Option ℕ → ℕ → List ProjectAgentMember → List ℕ
hit_actors project crew outgoing [] = []
hit_actors project crew outgoing (row ∷ rows) =
    let rest = hit_actors project crew outgoing rows in
    if is_hit project crew outgoing row then row.actor_id ∷ rest else rest

abbrev pub with_crew : Option ℕ → List ℕ → List ℕ
with_crew none actors = actors
with_crew (some id) actors = id ∷ actors

unfoldable pub suspend_agents_on_owner_transfer : Store → ℕ → ℕ → ℕ → Store
suspend_agents_on_owner_transfer store project outgoing now =
    let crew = crew_id (find_research_crew_actor project store.agents) in
    let actors = with_crew crew (hit_actors project crew outgoing store.seats) in
    record store {
      seats = suspend_hits project crew outgoing store.seats;
      tokens = revoke_live_tokens_for_actors project actors now store.tokens;
    }

abbrev pub resumable : ProjectAgentStatus → Result (Unit {0})
resumable suspended = ok tt
resumable _ = err conflict

unfoldable pub resume_project_agent : Store → ℕ → ℕ → Acting → Result Store
resume_project_agent store project actor acting = do
  ensure_can_manage store project acting true
  seat ← or_raise (find_seat project actor store.seats) not_found
  resumable seat.status
  ok (record store {
    seats =
        update_seat project actor
          (λ row. record row { status = active; responsible_account_id = acting.account_id })
          store.seats;
  })
