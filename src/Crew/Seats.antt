-- ===== src/Crew/Seats.antt =====
-- Writes to the seats of agents and the end of their tokens (agent_roster.py), and what they keep.
use opentheory.Base.{
  ℕ, ◌≡◌, refl, ap, ◌∙◌, ◌≢◌, inl, inr, false, ◌&&◌, Option, none, some, List, [], ◌∷◌, arith, ◌==◌,
  if◌then◌else◌, Bool-cases, Option-cases, All, elem,
}
use opentheory.Crew.Store.{
  ProjectAgentStatus, active, suspended, ProjectAgentMember, AgentSessionToken, Store, is_seat,
  find_seat, update_seat,
}
use opentheory.Crew.Roster.{
  is_live_of, revoke_live_tokens_for_actors, suspend, suspend_hit, suspend_hits, hit_actors,
  with_crew, find_research_crew_actor, crew_id, suspend_agents_on_owner_transfer,
}
use opentheory.Crew.Step.{seat_status, IsBacked, Step, seats-Step}

-- A write that leaves the project and the actor of a seat alone.
abbrev pub KeepsKeys : (ProjectAgentMember → ProjectAgentMember) → Type 0
KeepsKeys change =
    (row : ProjectAgentMember)
    → ((change row).project_id ≡ row.project_id) × ((change row).actor_id ≡ row.actor_id)

module _ (change : ProjectAgentMember → ProjectAgentMember) (keys : KeepsKeys change) where
  is_seat-change : (p a : ℕ) (row : ProjectAgentMember) → is_seat p a (change row) ≡ is_seat p a row
  is_seat-change p a row = rw ((keys row).0, (keys row).1)

  pub find_seat-update_seat :
      (p a : ℕ) (rows : List ProjectAgentMember) {row : ProjectAgentMember}
      → find_seat p a rows ≡ some row
      → find_seat p a (update_seat p a change rows) ≡ some (change row)
  find_seat-update_seat p a [] h = cc
  find_seat-update_seat p a (first ∷ rows) {row} h = elim (Bool-cases (is_seat p a first)) [
    | inl here ↦
        let e : some first ≡ some row = rw here at h in
        let same : first ≡ row = cc in
        rw (here, is_seat-change p a first, here) (ap (λ r. some (change r)) same)
    | inr there ↦ rw (there, there) (find_seat-update_seat p a rows (rw there at h))
  ]

  pub find_seat-update_seat_other :
      (p a q b : ℕ) (rows : List ProjectAgentMember)
      → (p == q && a == b) ≡ false
      → find_seat p a (update_seat q b change rows) ≡ find_seat p a rows
  find_seat-update_seat_other p a q b [] ne = refl
  find_seat-update_seat_other p a q b (first ∷ rows) ne = ground (
    arith,
    is_seat-change p a first,
    (keys first).0,
    (keys first).1,
    find_seat-update_seat_other p a q b rows ne,
  )

-- Suspending leaves keys alone, and what it does to the status.
suspend-keys :
    (row : ProjectAgentMember) (status : ProjectAgentStatus)
    → ((suspend row status).project_id ≡ row.project_id)
      × ((suspend row status).actor_id ≡ row.actor_id)
suspend-keys row active = (refl, refl)
suspend-keys row suspended = (refl, refl)
suspend-keys row ProjectAgentStatus.revoked = (refl, refl)

pub suspend-active :
    (row : ProjectAgentMember) (status : ProjectAgentStatus)
    → row.status ≡ status
    → (suspend row status).status ≢ active
suspend-active row active e h = cc
suspend-active row suspended e h = cc
suspend-active row ProjectAgentStatus.revoked e h = cc

suspend-revoked :
    (row : ProjectAgentMember) (status : ProjectAgentStatus)
    → row.status ≡ status
    → row.status ≡ ProjectAgentStatus.revoked
    → (suspend row status).status ≡ ProjectAgentStatus.revoked
suspend-revoked row active e h = cc
suspend-revoked row suspended e h = h
suspend-revoked row ProjectAgentStatus.revoked e h = h

module _ (q : ℕ) (crew : Option ℕ) (out : ℕ) where
  suspend_hit-keys :
      (row : ProjectAgentMember)
      → ((suspend_hit q crew out row).project_id ≡ row.project_id)
        × ((suspend_hit q crew out row).actor_id ≡ row.actor_id)
  suspend_hit-keys row = ground (arith, suspend-keys row row.status)

  pub find_seat-suspend_hits :
      (p a : ℕ) (rows : List ProjectAgentMember) {row : ProjectAgentMember}
      → find_seat p a rows ≡ some row
      → find_seat p a (suspend_hits q crew out rows) ≡ some (suspend_hit q crew out row)
  unfolding suspend_hits
  find_seat-suspend_hits p a [] h = cc
  find_seat-suspend_hits p a (first ∷ rows) {row} h = elim (Bool-cases (is_seat p a first)) [
    | inl here ↦
        let e : some first ≡ some row = rw here at h in
        let same : first ≡ row = cc in
        rw (is_seat-change (suspend_hit q crew out) suspend_hit-keys p a first, here)
          (ap (λ r. some (suspend_hit q crew out r)) same)
    | inr there ↦
        rw (is_seat-change (suspend_hit q crew out) suspend_hit-keys p a first, there)
          (find_seat-suspend_hits p a rows (rw there at h))
  ]

  -- A seat whose actor is not among those hit is as it was.
  seat_status-suspend_hits_other :
      (p a : ℕ) (rows : List ProjectAgentMember)
      → (p == q && elem a (hit_actors q crew out rows)) ≡ false
      → seat_status p a (suspend_hits q crew out rows) ≡ seat_status p a rows
  unfolding suspend_hits hit_actors
  seat_status-suspend_hits_other p a [] ne = refl
  seat_status-suspend_hits_other p a (first ∷ rows) ne =
      ground (arith, suspend_hit-keys first, seat_status-suspend_hits_other p a rows)

  revoked-suspend_hits :
      (p a : ℕ) (rows : List ProjectAgentMember)
      → seat_status p a rows ≡ some ProjectAgentStatus.revoked
      → seat_status p a (suspend_hits q crew out rows) ≡ some ProjectAgentStatus.revoked
  revoked-suspend_hits p a rows h = elim (Option-cases (find_seat p a rows)) [
    | inl e ↦ (let bad : none ≡ some ProjectAgentStatus.revoked = rw e at h in cc)
    | inr (row, e) ↦
        let shut : some row.status ≡ some ProjectAgentStatus.revoked = rw e at h in
        let is : row.status ≡ ProjectAgentStatus.revoked = cc in
        rw (find_seat-suspend_hits p a rows e)
          (ground (arith, suspend-revoked row row.status refl is))
  ]

elem-with_crew :
    (a : ℕ) (crew : Option ℕ) (actors : List ℕ)
    → elem a (with_crew crew actors) ≡ false
    → elem a actors ≡ false
elem-with_crew a none actors h = h
elem-with_crew a (some id) actors h = ground arith

-- Revoking the live tokens of the actors whose seats changed keeps every live token backed.
pub revoke_live-IsBacked :
    (seats seats' : List ProjectAgentMember) (q : ℕ) (actors : List ℕ) (now : ℕ)
    (tokens : List AgentSessionToken)
    → ((p a : ℕ)
        → (p == q && elem a actors) ≡ false
        → seat_status p a seats' ≡ seat_status p a seats)
    → All (IsBacked seats) tokens
    → All (IsBacked seats') (revoke_live_tokens_for_actors q actors now tokens)
unfolding revoke_live_tokens_for_actors
revoke_live-IsBacked seats seats' q actors now [] same live = tt
revoke_live-IsBacked seats seats' q actors now (row ∷ rows) same live =
    (head, revoke_live-IsBacked seats seats' q actors now rows same live.1)
  where
    head :
        IsBacked seats'
          (if is_live_of q actors row then record row { revoked_at = some now } else row)
    head = elim (Bool-cases (is_live_of q actors row)) [
      | inl hit ↦ rw hit (λ unrevoked. cc)
      | inr miss ↦ rw miss (λ unrevoked.
          (let other : (row.project_id == q && elem row.actor_id actors) ≡ false = ground arith in
            same row.project_id row.actor_id other ∙ live.0 unrevoked))
    ]

pub suspend_agents-Step :
    (store : Store) (project outgoing now : ℕ)
    → Step store (suspend_agents_on_owner_transfer store project outgoing now)
unfolding suspend_agents_on_owner_transfer
suspend_agents-Step store project outgoing now =
    let crew = crew_id (find_research_crew_actor project store.agents) in
    seats-Step store _ _ store.agents store.next_id (omega arith)
      (λ p a used shut. revoked-suspend_hits project crew outgoing p a store.seats shut)
      (revoke_live-IsBacked store.seats (suspend_hits project crew outgoing store.seats) project
        (with_crew crew (hit_actors project crew outgoing store.seats)) now store.tokens
        (λ p a miss.
          seat_status-suspend_hits_other project crew outgoing p a store.seats
            (ground (arith, elem-with_crew a crew (hit_actors project crew outgoing store.seats)))))
