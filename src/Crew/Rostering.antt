-- ===== src/Crew/Rostering.antt =====
-- Deploying, resuming and patching the agents of a project (agent_roster.py, agent_actors.py) as
-- steps on the seats.
use opentheory.Base.{
  ℕ, ◌-◌, ◌≤◌, ◌<◌, ◌≡◌, refl, ap, inl, inr, true, ◌&&◌, none, some, List, ◌∷◌, arith, ◌==◌,
  Bool-cases, All-map,
}
use opentheory.Base.Http.{HttpError, not_found, ok, or_raise, bind_ok, or_raise_ok}
use mathlib.Core.Path.{subst}
use opentheory.Ledger.Chokepoint.{ok-injective}
use opentheory.Crew.Store.{
  ProjectAgentStatus, active, ProjectAgentMember, AgentActor, Store, Acting, is_seat, find_seat,
  update_seat,
}
use opentheory.Crew.Gates.{ensure_can_manage, ensure_is_member}
use opentheory.Crew.Roster.{resumable, resume_project_agent}
use opentheory.Crew.Deploys.{listed, AgentRosterPatch, set_caps, edit_caps}
use opentheory.Crew.Step.{seat_status, Step, seats-Step}
use opentheory.Crew.Seats.{KeepsKeys, find_seat-update_seat, find_seat-update_seat_other}
pub mod Deploying

module _ (change : ProjectAgentMember → ProjectAgentMember) (keys : KeepsKeys change) where
  -- A write to a seat keeps a status that it keeps in the row it finds.
  pub seat_status-update_seat :
      (status : ProjectAgentStatus) (p a q b : ℕ) (rows : List ProjectAgentMember)
      {row : ProjectAgentMember}
      → find_seat q b rows ≡ some row
      → (row.status ≡ status → (change row).status ≡ status)
      → seat_status p a rows ≡ some status
      → seat_status p a (update_seat q b change rows) ≡ some status
  seat_status-update_seat status p a q b rows {row} found kept h =
      elim (Bool-cases (p == q && a == b)) [
        | inl here ↦
            let e1 : p ≡ q = ground arith in
            let e2 : a ≡ b = ground arith in
            let was : some row.status ≡ some status = rw (e1, e2, found) at h in
            let is : row.status ≡ status = cc in
            rw (e1, e2, find_seat-update_seat change keys q b rows found)
              (ap (λ (s : ProjectAgentStatus). some s) (kept is))
        | inr there ↦ rw (find_seat-update_seat_other change keys p a q b rows there) h
      ]

  pub update_seat-Step :
      (store : Store) (q b : ℕ) {row : ProjectAgentMember}
      → find_seat q b store.seats ≡ some row
      → (row.status ≡ ProjectAgentStatus.revoked → (change row).status ≡ ProjectAgentStatus.revoked)
      → (row.status ≡ active → (change row).status ≡ active)
      → Step store (record store { seats = update_seat q b change store.seats })
  update_seat-Step store q b found shut on =
      seats-Step store _ store.tokens store.agents store.next_id (omega arith)
        (λ p a used.
          seat_status-update_seat ProjectAgentStatus.revoked p a q b store.seats found shut)
        (All-map _ _
          (λ token backed unrevoked.
            seat_status-update_seat active token.project_id token.actor_id q b store.seats found on
              (backed unrevoked))
          store.tokens)

-- A new active seat, for a pair that has none or an actor that is new.
pub new_seat-Step :
    (store : Store) (seat : ProjectAgentMember) (agents : List AgentActor) (next_id : ℕ)
    → store.next_id ≤ next_id
    → seat.status ≡ active
    → (seat.actor_id < store.next_id → find_seat seat.project_id seat.actor_id store.seats ≡ none)
    → Step store (record store { seats = seat ∷ store.seats; agents = agents; next_id = next_id })
new_seat-Step store seat agents next_id grows on free =
    seats-Step store _ store.tokens agents next_id grows shut (
      All-map _ _
        (λ token backed unrevoked. backed_still token.project_id token.actor_id (backed unrevoked))
        store.tokens)
  where
    backed_still :
        (p a : ℕ)
        → seat_status p a store.seats ≡ some active
        → seat_status p a (seat ∷ store.seats) ≡ some active
    backed_still p a h = elim (Bool-cases (is_seat p a seat)) [
      | inl here ↦ rw here (ap (λ (s : ProjectAgentStatus). some s) on)
      | inr there ↦ rw there h
    ]

    shut :
        (p a : ℕ)
        → a < store.next_id
        → seat_status p a store.seats ≡ some ProjectAgentStatus.revoked
        → seat_status p a (seat ∷ store.seats) ≡ some ProjectAgentStatus.revoked
    shut p a used h = elim (Bool-cases (is_seat p a seat)) [
      | inl here ↦
          let e1 : seat.project_id ≡ p = ground arith in
          let e2 : seat.actor_id ≡ a = ground arith in
          let none_there : find_seat p a store.seats ≡ none = rw (e1, e2) at (free (omega arith)) in
          (let bad : none ≡ some ProjectAgentStatus.revoked = rw none_there at h in cc)
      | inr there ↦ rw there h
    ]

pub resume_project_agent-Step :
    (store : Store) (project actor : ℕ) (acting : Acting) {after : Store}
    → resume_project_agent store project actor acting ≡ ok after
    → Step store after
unfolding resume_project_agent
resume_project_agent-Step store project actor acting h =
    let c1 = bind_ok (ensure_can_manage store project acting true) _ h in
    let c2 = bind_ok (or_raise (find_seat project actor store.seats) not_found) _ c1.2 in
    let c3 = bind_ok (resumable c2.0.status) _ c2.2 in
    subst (λ s. Step store s) (ok-injective c3.2)
      (update_seat-Step _ (λ row. (refl, refl)) store project actor (or_raise_ok _ not_found c2.1)
        (λ shut. (let bad : resumable ProjectAgentStatus.revoked ≡ ok c3.0 = rw shut at c3.1 in cc))
        (λ on. refl))

pub edit_caps-Step :
    (store : Store) (project actor : ℕ) (payload : AgentRosterPatch) {row : ProjectAgentMember}
    → find_seat project actor store.seats ≡ some row
    → Step store (edit_caps store project actor payload)
edit_caps-Step store project actor payload found =
    update_seat-Step (set_caps payload) (λ row. (refl, refl)) store project actor found
      (λ shut. shut) (λ on. on)

pub listed_ok :
    (store : Store) (project actor : ℕ) (acting : Acting) (missing : HttpError)
    {out : ProjectAgentMember × Store}
    → listed store project actor acting missing ≡ ok out
    → store ≡ out.1
listed_ok store project actor acting missing {out} h =
    let c1 = bind_ok (ensure_is_member store project acting) _ h in
    let c2 = bind_ok (or_raise (find_seat project actor store.seats) missing) _ c1.2 in
    ap (λ (r : ProjectAgentMember × Store). r.1) (ok-injective c2.2)
