-- ===== src/Crew/Rostering/Deploying.antt =====
-- `deploy_project_agent` and `patch_project_agent` (agent_roster.py) with the calls under them, as
-- steps on the seats.
use opentheory.Base.{
  ℕ, ◌+◌, ◌≡◌, refl, ap, inl, inr, Bool, true, false, not, ◌||◌, Option, none, some, [], ◌∷◌, arith,
  Bool-cases, is_none,
}
use opentheory.Base.Http.{
  forbidden, not_found, conflict, server_error, ok, ◌>>=◌, ◌>>◌, raise_if, or_raise, bind_ok,
  or_raise_ok,
}
use mathlib.Core.Path.{subst}
use opentheory.Ledger.Chokepoint.{ok-injective}
use opentheory.Base.Text.{Text, strip}
use opentheory.Crew.Store.{
  ProjectAgentStatus, active, suspended, ProjectAgentMember, AgentActor, Store, Acting, has_project,
  find_seat, update_seat,
}
use opentheory.Crew.Gates.{ensure_can_manage}
use opentheory.Crew.Roster.{
  revoke_live_tokens_for_actors, resume_project_agent, find_research_crew_actor, crew_name, crew_id,
}
use opentheory.Crew.Deploys.{
  listed, AgentDeployRequest, project_owner, adopt, new_agent, new_seat,
  ensure_research_crew_roster, with_agent, crew_or_new, get_or_create_project_agent_actor,
  crew_seated, seat_crew, deploy_crew, crew_clash, deploy_named, is_reuse, deploy_project_agent,
  AgentRosterPatch, set_caps, is_cap_edit, edit_if, changeable, shut_seat, patch_seat,
  patch_project_agent,
}
use opentheory.Crew.Step.{status_of_seat, Step, Step-refl, Step-trans, seats-Step}
use opentheory.Crew.Seats.{KeepsKeys, find_seat-update_seat_other, revoke_live-IsBacked}
use opentheory.Crew.Rostering.{
  update_seat-Step, seat_status-update_seat, new_seat-Step, resume_project_agent-Step,
  edit_caps-Step, listed_ok,
}

is_none_iff {ℓ} : {A : Type ℓ} (o : Option A) → is_none o ≡ true → o ≡ none
is_none_iff none h = refl
is_none_iff (some a) h = cc

ensure_research_crew_roster-Step :
    (store : Store) (project actor : ℕ)
    → Step store (ensure_research_crew_roster store project actor)
unfolding ensure_research_crew_roster
ensure_research_crew_roster-Step store project actor =
    elim (Bool-cases (
      not (has_project project store.projects)
      || not (is_none (find_seat project actor store.seats)))) [
        | inl there ↦ rw there (Step-refl store)
        | inr missing ↦
            let bare : is_none (find_seat project actor store.seats) ≡ true = ground arith in
            rw missing (
              new_seat-Step store
                (new_seat project actor (project_owner project store.members) none none)
                (adopt actor (project_owner project store.members) store.agents) store.next_id
                (omega arith) refl (λ used. is_none_iff _ bare))
      ]

with_agent-Step :
    (store : Store) (name : Text) (account : Option ℕ) (project : ℕ)
    → Step store (with_agent store name account project)
with_agent-Step store name account project =
    seats-Step store store.seats store.tokens
      (new_agent store.next_id name account project ∷ store.agents) (store.next_id + 1)
      (omega arith) (λ p a used shut. shut) (λ live. live)

crew_or_new-Step :
    (store : Store) (project : ℕ) (o : Option AgentActor)
    → Step store (crew_or_new store project o).1
unfolding ensure_research_crew_roster
crew_or_new-Step store project (some row) = ensure_research_crew_roster-Step store project row.id
crew_or_new-Step store project none = Step-trans (with_agent-Step store crew_name none project) (
    ensure_research_crew_roster-Step (with_agent store crew_name none project) project
      store.next_id)

pub get_or_create-Step :
    (store : Store) (project : ℕ) → Step store (get_or_create_project_agent_actor store project).1
unfolding get_or_create_project_agent_actor find_research_crew_actor ensure_research_crew_roster
get_or_create-Step store project =
    crew_or_new-Step store project (find_research_crew_actor project store.agents)

seat_crew-Step :
    (store : Store) (project actor account : ℕ) (payload : AgentDeployRequest)
    (o : Option ProjectAgentMember)
    → find_seat project actor store.seats ≡ o
    → Step store (record store { seats = seat_crew store project actor account payload o })
seat_crew-Step store project actor account payload none free =
    new_seat-Step store _ store.agents store.next_id (omega arith) refl (λ used. free)
seat_crew-Step store project actor account payload (some row) found =
    update_seat-Step _ (λ seat. (refl, refl)) store project actor found (λ shut. shut) (λ on. on)

deploy_crew-Step :
    (store : Store) (project account : ℕ) (acting : Acting) (payload : AgentDeployRequest)
    {out : ProjectAgentMember × Store}
    → deploy_crew store project account acting payload ≡ ok out
    → Step store out.1
unfolding deploy_crew
deploy_crew-Step store project account acting payload h =
    let c1 =
      bind_ok
        (raise_if
          (crew_seated store project (crew_id (find_research_crew_actor project store.agents)))
          conflict)
        _ h in
    let made = get_or_create_project_agent_actor store project in
    subst (λ s. Step store s) (listed_ok _ project _ acting server_error c1.2)
      (Step-trans (get_or_create-Step store project) (
        seat_crew-Step made.1 project made.0 account payload (find_seat project made.0 made.1.seats)
          refl))

deploy_named-Step :
    (store : Store) (project account : ℕ) (acting : Acting) (payload : AgentDeployRequest)
    {out : ProjectAgentMember × Store}
    → deploy_named store project account acting payload ≡ ok out
    → Step store out.1
unfolding deploy_named
deploy_named-Step store project account acting payload h =
    let c1 =
      bind_ok (raise_if (crew_clash store project (strip payload.display_name)) server_error) _ h in
    subst (λ s. Step store s) (listed_ok _ project _ acting server_error c1.2)
      (new_seat-Step store
        (new_seat project store.next_id (some account) payload.token_budget_cap
          payload.usd_budget_cap)
        (new_agent store.next_id (strip payload.display_name) (some account) project ∷ store.agents)
        (store.next_id + 1) (omega arith) refl (λ used. absurd (omega arith)))

pub deploy_project_agent-Step :
    (store : Store) (project : ℕ) (acting : Acting) (payload : AgentDeployRequest)
    {out : ProjectAgentMember × Store}
    → deploy_project_agent store project acting payload ≡ ok out
    → Step store out.1
unfolding deploy_project_agent
deploy_project_agent-Step store project acting payload {out} h =
    let c1 = bind_ok (ensure_can_manage store project acting false) _ h in
    let c2 = bind_ok (or_raise acting.account_id forbidden) _ c1.2 in
    elim (Bool-cases (is_reuse payload)) [
      | inl crew ↦
          let e : deploy_crew store project c2.0 acting payload ≡ ok out = rw crew at c2.2 in
          deploy_crew-Step store project c2.0 acting payload e
      | inr named ↦
          let e : deploy_named store project c2.0 acting payload ≡ ok out = rw named at c2.2 in
          deploy_named-Step store project c2.0 acting payload e
    ]

-- Suspending or revoking a seat that is not revoked.
shut_seat-Step :
    (store : Store) (project actor : ℕ) (status : ProjectAgentStatus) (payload : AgentRosterPatch)
    (now : ℕ) {row : ProjectAgentMember} {x : Unit {0}}
    → find_seat project actor store.seats ≡ some row
    → changeable status row.status ≡ ok x
    → Step store (shut_seat store project actor status payload now)
unfolding revoke_live_tokens_for_actors
shut_seat-Step store project actor status payload now {row} {x} found allowed =
    seats-Step store _ _ store.agents store.next_id (omega arith)
      (λ p a used.
        seat_status-update_seat change keys ProjectAgentStatus.revoked p a project actor store.seats
          found
          (λ shut.
            (let bad : changeable status ProjectAgentStatus.revoked ≡ ok x = rw shut at allowed in
              cc)))
      (revoke_live-IsBacked store.seats (update_seat project actor change store.seats) project
        (actor ∷ []) now store.tokens
        (λ p a miss.
          ap (λ o. status_of_seat o)
            (find_seat-update_seat_other change keys p a project actor store.seats (ground arith))))
  where
    change : ProjectAgentMember → ProjectAgentMember
    change row' = record (set_caps payload row') { status = status }

    keys : KeepsKeys change
    keys row' = (refl, refl)

edit_if-Step :
    (b : Bool) (store : Store) (project actor : ℕ) (acting : Acting) (payload : AgentRosterPatch)
    {after : Store}
    → edit_if b store project actor acting payload ≡ ok after
    → Step store after
edit_if-Step false store project actor acting payload h =
    subst (λ s. Step store s) (ok-injective h) (Step-refl store)
edit_if-Step true store project actor acting payload h =
    let c1 = bind_ok (ensure_can_manage store project acting false) _ h in
    let c2 = bind_ok (or_raise (find_seat project actor store.seats) not_found) _ c1.2 in
    subst (λ s. Step store s) (ok-injective c2.2)
      (edit_caps-Step store project actor payload (or_raise_ok _ not_found c2.1))

module _ (store : Store) (project actor : ℕ) (acting : Acting) (payload : AgentRosterPatch)
    (now : ℕ) where
  shut_or_not-Step :
      (status : ProjectAgentStatus) {out : ProjectAgentMember × Store}
      → (do
        ensure_can_manage store project acting false
        seat ← or_raise (find_seat project actor store.seats) not_found
        changeable status seat.status
        listed (shut_seat store project actor status payload now) project actor acting not_found)
        ≡ ok out
      → Step store out.1
  shut_or_not-Step status h =
      let c1 = bind_ok (ensure_can_manage store project acting false) _ h in
      let c2 = bind_ok (or_raise (find_seat project actor store.seats) not_found) _ c1.2 in
      let c3 = bind_ok (changeable status c2.0.status) _ c2.2 in
      subst (λ s. Step store s) (listed_ok _ project actor acting not_found c3.2)
        (shut_seat-Step store project actor status payload now (or_raise_ok _ not_found c2.1) c3.1)

  patch_seat-Step :
      (wanted : Option ProjectAgentStatus) {out : ProjectAgentMember × Store}
      → patch_seat store project actor acting payload now wanted ≡ ok out
      → Step store out.1
  unfolding resume_project_agent revoke_live_tokens_for_actors
  patch_seat-Step (some active) h =
      let c1 = bind_ok (resume_project_agent store project actor acting) _ h in
      let c2 = bind_ok (edit_if (is_cap_edit payload) c1.0 project actor acting payload) _ c1.2 in
      subst (λ s. Step store s) (listed_ok _ project actor acting not_found c2.2)
        (Step-trans (resume_project_agent-Step store project actor acting c1.1)
          (edit_if-Step (is_cap_edit payload) c1.0 project actor acting payload c2.1))
  patch_seat-Step none h =
      let c1 = bind_ok (ensure_can_manage store project acting false) _ h in
      let c2 = bind_ok (or_raise (find_seat project actor store.seats) not_found) _ c1.2 in
      subst (λ s. Step store s) (listed_ok _ project actor acting not_found c2.2)
        (edit_caps-Step store project actor payload (or_raise_ok _ not_found c2.1))
  patch_seat-Step (some suspended) h = shut_or_not-Step suspended h
  patch_seat-Step (some ProjectAgentStatus.revoked) h =
      shut_or_not-Step ProjectAgentStatus.revoked h

  pub patch_project_agent-Step :
      {out : ProjectAgentMember × Store}
      → patch_project_agent store project actor acting payload now ≡ ok out
      → Step store out.1
  unfolding patch_project_agent resume_project_agent revoke_live_tokens_for_actors
  patch_project_agent-Step h = patch_seat-Step payload.status h
