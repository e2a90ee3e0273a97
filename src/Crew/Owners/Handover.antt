-- ===== src/Crew/Owners/Handover.antt =====
-- A transfer of ownership (project_members.py: set_member_role, agent_roster.py:
-- suspend_agents_on_owner_transfer) and the agents of the owner who hands over.
use opentheory.Base.{
  ℕ, ◌≡◌, refl, sym, ap, ◌∙◌, ◌≢◌, inl, inr, Bool, true, false, some, List, [], ◌∷◌, Bool-cases,
}
use opentheory.Base.Http.{forbidden, not_found, ok, err, bind_ok, unless_ok}
use mathlib.Core.Path.{subst}
use opentheory.Ledger.Store.{agent}
use opentheory.Crew.Store.{
  ProjectRole, owner, admin, is_owner, ProjectAgentStatus, active, suspended, is_active,
  ProjectMember, ProjectAgentMember, Store, Acting, is_member_row, membership, set_role,
  has_project, find_seat,
}
use opentheory.Crew.Gates.{ensure_can_manage, require_project, ensure_is_member, bound_elsewhere}
use opentheory.Crew.Roster.{
  is_hit, crew_id, find_research_crew_actor, suspend_agents_on_owner_transfer,
}
use opentheory.Crew.Members.{update_project_member}
use opentheory.Crew.Seats.{find_seat-suspend_hits, suspend-active}
use opentheory.Crew.Owners.{membership-set_role_other}
use opentheory.Crew.Owners.Transfer.{transferred, role_change_cases}

membership-set_role_self :
    (p a : ℕ) (role : ProjectRole) (rows : List ProjectMember) {m : ProjectMember}
    → membership p a rows ≡ some m
    → membership p a (set_role p a role rows) ≡ some (record m { role = role })
membership-set_role_self p a role [] h = cc
membership-set_role_self p a role (row ∷ rows) {m} h = elim (Bool-cases (is_member_row p a row)) [
  | inl here ↦
      let e : some row ≡ some m = rw here at h in
      let same : row ≡ m = cc in
      rw (here, here) (ap (λ (r : ProjectMember). some (record r { role = role })) same)
  | inr there ↦ rw (there, there) (membership-set_role_self p a role rows (rw there at h))
]

not_active : (status : ProjectAgentStatus) → status ≢ active → is_active status ≡ false
not_active active h = absurd (h refl)
not_active suspended h = refl
not_active ProjectAgentStatus.revoked h = refl

-- An agent whose seat was hit fails the gate of the project's members.
hit_is_forbidden :
    (store : Store) (project outgoing now : ℕ) (bot : Acting) {seat : ProjectAgentMember}
    → has_project project store.projects ≡ true
    → bot.type ≡ agent
    → find_seat project bot.id store.seats ≡ some seat
    → is_hit project (crew_id (find_research_crew_actor project store.agents)) outgoing seat ≡ true
    → ensure_is_member (suspend_agents_on_owner_transfer store project outgoing now) project bot
      ≡ err forbidden
unfolding ensure_is_member suspend_agents_on_owner_transfer
hit_is_forbidden store project outgoing now bot {seat} known is found hit =
    let crew = crew_id (find_research_crew_actor project store.agents) in
    let left = find_seat-suspend_hits project crew outgoing project bot.id store.seats found in
    let shut = not_active _ (suspend-active seat seat.status refl) in
    elim (Bool-cases (bound_elsewhere project bot.token_project)) [
      | inl elsewhere ↦ rw (known, elsewhere)
      | inr here ↦ rw (known, here, is, left, hit, shut)
    ]

-- The project exists for whoever passed its gate.
gate_has_project :
    (store : Store) (project : ℕ) (acting : Acting) (require_owner : Bool) {x : Unit {0}}
    → ensure_can_manage store project acting require_owner ≡ ok x
    → has_project project store.projects ≡ true
unfolding ensure_can_manage
gate_has_project store project acting require_owner h =
    let c1 = bind_ok (require_project store project) _ h in unless_ok _ not_found c1.1

-- Where the outgoing owner hands the project to a member: who holds which role then, and what the
-- gate says to an agent.
abbrev pub HandedOver : Store → ℕ → ℕ → ℕ → Acting → Type 0
HandedOver after project account outgoing bot =
    ((m : ProjectMember) × (membership project account after.members ≡ some m) × (m.role ≡ owner))
    × ((m : ProjectMember) × (membership project outgoing after.members ≡ some m)
        × (m.role ≡ admin))
    × (ensure_is_member after project bot ≡ err forbidden)

moved_HandedOver :
    (store : Store) (project account outgoing : ℕ) (now : ℕ) (bot : Acting)
    {target m : ProjectMember} {seat : ProjectAgentMember}
    → has_project project store.projects ≡ true
    → membership project account store.members ≡ some target
    → target.role ≡ admin
    → membership project outgoing store.members ≡ some m
    → is_owner m.role ≡ true
    → bot.type ≡ agent
    → find_seat project bot.id store.seats ≡ some seat
    → is_hit project (crew_id (find_research_crew_actor project store.agents)) outgoing seat ≡ true
    → HandedOver
        (suspend_agents_on_owner_transfer
          (record store { members = transferred project outgoing account owner store.members })
          project
          outgoing
          now)
        project
        account
        outgoing
        bot
unfolding suspend_agents_on_owner_transfer
moved_HandedOver store project account outgoing now bot {target} {m} known wanted plain found owning
      is seated hit =
    let two : outgoing ≢ account = (λ e.
      let same : some m ≡ some target = sym found ∙ (rw e wanted) in
      let eq : m ≡ target = cc in
      (let bad : is_owner admin ≡ true = rw (eq, plain) at owning in cc)) in
    let still =
      membership-set_role_other project outgoing account admin store.members two ∙ wanted in
    let demoted = membership-set_role_self project outgoing admin store.members found in
    (
      (
        record target { role = owner },
        membership-set_role_self project account owner _ still,
        refl,
      ),
      (
        record m { role = admin },
        membership-set_role_other project account outgoing owner _ (λ e. two (sym e)) ∙ demoted,
        refl,
      ),
      hit_is_forbidden
          (record store { members = transferred project outgoing account owner store.members })
          project outgoing now bot known is seated hit,
    )

-- When the owner of a project makes an admin its owner, the call leaves the admin as owner, the
-- outgoing owner as admin, and an agent of the crew or under the outgoing owner's responsibility
-- refused as a member of what the call leaves; the new owner may resume its seat later.
pub transfer-HandedOver :
    (store : Store) (project account outgoing : ℕ) (acting : Acting) (now : ℕ) (bot : Acting)
    {after : Store} {target : ProjectMember} {seat : ProjectAgentMember}
    → update_project_member store project account owner acting now ≡ ok after
    → acting.account_id ≡ some outgoing
    → membership project account store.members ≡ some target
    → target.role ≡ admin
    → bot.type ≡ agent
    → find_seat project bot.id store.seats ≡ some seat
    → is_hit project (crew_id (find_research_crew_actor project store.agents)) outgoing seat ≡ true
    → HandedOver after project account outgoing bot
unfolding update_project_member
transfer-HandedOver store project account outgoing acting now bot {after} {target} h mine wanted
      plain is seated hit =
    let c1 = bind_ok (ensure_can_manage store project acting true) _ h in
    let known = gate_has_project store project acting true c1.1 in
    let (found, same, how) = role_change_cases store project account owner acting now c1.1 c1.2 in
    let one : found ≡ target = (let e : some found ≡ some target = sym same ∙ wanted in cc) in
    let not_owner : is_owner found.role ≡ false = rw (one, plain) in
    elim how [
      | inl (alike, e) ↦ (let bad : true ≡ false = alike ∙ not_owner in cc)
      | inr (acts, up, low, e) ↦
          let who : acts.0 ≡ outgoing =
            (let s : some acts.0 ≡ some outgoing = sym acts.2 ∙ mine in cc) in
          subst (λ s. HandedOver s project account outgoing bot) e
            (rw who (
              moved_HandedOver store project account outgoing now bot known wanted plain
                (rw who at acts.3) acts.4 is seated hit))
    ]
