-- ===== src/Crew/Owners/Transfer.antt =====
-- Changing a member's role, with the transfer of ownership (project_members.py: set_member_role),
-- and creating a project (projects.py), as steps.
use opentheory.Base.{
  ℕ, ◌<◌, ◌≡◌, refl, sym, ◌∙◌, ◌≢◌, ◌⊎◌, inl, inr, true, false, not, ◌&&◌, Option, none, some, List,
  arith, Bool-cases,
}
use opentheory.Base.Http.{
  bad_request, not_found, conflict, ok, raise_if, or_raise, bind_ok, or_raise_ok, raise_if_ok,
}
use mathlib.Core.Path.{subst}
use opentheory.Ledger.Chokepoint.{ok-injective}
use opentheory.Base.Text.{Text}
use opentheory.Crew.Store.{
  ProjectRole, admin, is_owner, ProjectMember, Store, Acting, membership, set_role, owners,
  slug_taken,
}
use opentheory.Crew.Gates.{ensure_can_manage}
use opentheory.Crew.Roster.{suspend_agents_on_owner_transfer}
use opentheory.Crew.Members.{
  one_owner, demote_owner, role_base, write_role, set_member_role, update_project_member,
  owner_rows, create_project,
}
use opentheory.Crew.Step.{Step, Step-trans, members-Step}
use opentheory.Crew.Seats.{suspend_agents-Step}
use opentheory.Crew.Owners.{
  OwnerActs, ensure_can_manage-OwnerActs, membership_row, owners-set_role,
  membership-set_role_other,
}

-- The rows after the acting owner's demotion and the target's promotion.
abbrev pub transferred : ℕ → ℕ → ℕ → ProjectRole → List ProjectMember → List ProjectMember
transferred project outgoing account role rows =
    set_role project account role (set_role project outgoing admin rows)

owners-transferred :
    (p project outgoing account : ℕ) (role : ProjectRole) (rows : List ProjectMember)
    {m target : ProjectMember}
    → membership project outgoing rows ≡ some m
    → is_owner m.role ≡ true
    → membership project account rows ≡ some target
    → is_owner target.role ≡ false
    → is_owner role ≡ true
    → owners p (transferred project outgoing account role rows) ≡ owners p rows
owners-transferred p project outgoing account role rows {m} {target} found owning wanted plain
      promoted =
    let two : outgoing ≢ account = (λ e.
      let same : some m ≡ some target = sym found ∙ (rw e wanted) in
      let eq : m ≡ target = cc in
      (let bad : is_owner target.role ≡ true = rw (← eq) owning in cc)) in
    let down = owners-set_role p project outgoing admin rows found in
    let still = membership-set_role_other project outgoing account admin rows two ∙ wanted in
    let up = owners-set_role p project account role (set_role project outgoing admin rows) still in
    let k1 = (membership_row project outgoing rows found).0 in
    let k2 = (membership_row project account rows wanted).0 in ground arith

demote_owner_lem :
    (store : Store) (project now : ℕ) (acting : Acting) (acts : OwnerActs store project acting)
    → demote_owner store project now acting.account_id
      ≡ suspend_agents_on_owner_transfer
          (record store { members = set_role project acts.0 admin store.members })
          project
          acts.0
          now
demote_owner_lem store project now acting (account, m, is, found, owning) = rw (is, found, owning)

write_role_ok :
    (base : Store) (project account : ℕ) (role : ProjectRole) {after : Store}
    → write_role base project account role ≡ ok after
    → record base { members = set_role project account role base.members } ≡ after
write_role_ok base project account role h =
    ok-injective
      (bind_ok (one_owner project (set_role project account role base.members) conflict) _ h).2

-- What a change of role that passed its gate and its guards makes of the store: either ownership
-- stays where it is, or it moves to the target.
abbrev pub RoleStays : Store → ℕ → ℕ → ProjectRole → Store → ProjectMember → Type 0
RoleStays store project account role after target =
    (is_owner role ≡ is_owner target.role)
    × (record store { members = set_role project account role store.members } ≡ after)

abbrev pub RoleMoves : Store → ℕ → ℕ → ProjectRole → Acting → ℕ → Store → ProjectMember → Type 0
RoleMoves store project account role acting now after target =
    (acts : OwnerActs store project acting) × (is_owner role ≡ true)
    × (is_owner target.role ≡ false)
    × (suspend_agents_on_owner_transfer
          (record store { members = transferred project acts.0 account role store.members }) project
          acts.0 now
        ≡ after)

module _ (store : Store) (project account : ℕ) (role : ProjectRole) (acting : Acting) (now : ℕ)
    {after : Store} where
  role_moves :
      (acts : OwnerActs store project acting) (target : ProjectMember)
      → (is_owner role && not (is_owner target.role)) ≡ true
      → write_role (role_base store project role target acting now) project account role ≡ ok after
      → RoleMoves store project account role acting now after target
  unfolding suspend_agents_on_owner_transfer
  role_moves acts target moved h =
      let up : is_owner role ≡ true = ground arith in
      let plain : is_owner target.role ≡ false = ground arith in
      let base : role_base store project role target acting now
          ≡ suspend_agents_on_owner_transfer
              (record store { members = set_role project acts.0 admin store.members }) project
              acts.0 now =
        rw moved (demote_owner_lem store project now acting acts) in
      (
        acts,
        up,
        plain,
        write_role_ok _ project account role
            (subst (λ s. write_role s project account role ≡ ok after) base h),
      )

  role_stays :
      (target : ProjectMember)
      → (is_owner role && not (is_owner target.role)) ≡ false
      → (is_owner target.role && not (is_owner role)) ≡ false
      → write_role (role_base store project role target acting now) project account role ≡ ok after
      → RoleStays store project account role after target
  role_stays target stays kept h =
      let base : role_base store project role target acting now ≡ store = rw stays in
      (
        ground arith,
        write_role_ok store project account role
            (subst (λ s. write_role s project account role ≡ ok after) base h),
      )

  pub role_change_cases :
      ensure_can_manage store project acting true ≡ ok tt
      → set_member_role store project account role acting now ≡ ok after
      → (target : ProjectMember) × (membership project account store.members ≡ some target)
        × (RoleStays store project account role after target
            ⊎ RoleMoves store project account role acting now after target)
  unfolding set_member_role
  role_change_cases gate h =
      let acts = ensure_can_manage-OwnerActs store project acting gate in
      let c1 = bind_ok (or_raise (membership project account store.members) not_found) _ h in
      let c2 = bind_ok (raise_if (is_owner c1.0.role && not (is_owner role)) bad_request) _ c1.2 in
      (
        c1.0,
        or_raise_ok _ not_found c1.1,
        elim (Bool-cases (is_owner role && not (is_owner c1.0.role))) [
          | inl moved ↦ inr (role_moves acts c1.0 moved c2.2)
          | inr stays ↦ inl (role_stays c1.0 stays (raise_if_ok _ bad_request c2.1) c2.2)
        ],
      )

  set_member_role-Step :
      ensure_can_manage store project acting true ≡ ok tt
      → set_member_role store project account role acting now ≡ ok after
      → Step store after
  set_member_role-Step gate h =
      let (target, wanted, how) = role_change_cases gate h in
      elim how [
        | inl (alike, e) ↦
            subst (λ s. Step store s) e
              (members-Step store _ λ p used one.
                (let change = owners-set_role p project account role store.members wanted in
                  ground arith))
        | inr (acts, up, plain, e) ↦
            subst (λ s. Step store s) e
              (Step-trans
                (members-Step store _ λ p used one.
                  owners-transferred p project acts.0 account role store.members acts.3 acts.4
                    wanted plain up
                  ∙ one)
                (suspend_agents-Step _ project acts.0 now))
      ]

pub update_project_member-Step :
    (store : Store) (project account : ℕ) (role : ProjectRole) (acting : Acting) (now : ℕ)
    {after : Store}
    → update_project_member store project account role acting now ≡ ok after
    → Step store after
unfolding update_project_member
update_project_member-Step store project account role acting now h =
    let c1 = bind_ok (ensure_can_manage store project acting true) _ h in
    set_member_role-Step store project account role acting now c1.1 c1.2

owner_rows_other :
    (p project : ℕ) (o : Option ℕ) (rows : List ProjectMember)
    → p < project
    → owners p (owner_rows project o rows) ≡ owners p rows
owner_rows_other p project none rows h = refl
owner_rows_other p project (some account) rows h = ground arith

pub create_project-Step :
    (store : Store) (slug : Text) (acting : Acting) {after : Store}
    → create_project store slug acting ≡ ok after
    → Step store after
unfolding create_project
create_project-Step store slug acting h =
    let c1 = bind_ok (raise_if (slug_taken slug store.projects) conflict) _ h in
    subst (λ s. Step store s) (ok-injective c1.2)
      (record {
        next_grows = omega arith;
        owner_kept = λ p used one.
            owner_rows_other p store.next_id acting.account_id store.members used ∙ one;
        revoked_kept = λ p a used shut. shut;
        live_kept = λ live. live;
        moves = λ id. refl;
      })
