-- ===== src/Crew/Owners.antt =====
-- Removing members and changing their roles (project_members.py), creating projects (projects.py)
-- and the owners that are left.
use opentheory.Base.{
  ℕ, ◌+◌, ◌-◌, ◌≡◌, refl, ◌≢◌, inl, inr, true, not, Option, none, some, List, [], ◌∷◌, arith,
  if◌then◌else◌, Bool-cases,
}
use opentheory.Base.Http.{
  bad_request, forbidden, not_found, ok, raise_if, or_raise, bind_ok, or_raise_ok, raise_if_ok,
  unless_ok,
}
use mathlib.Core.Path.{subst}
use opentheory.Ledger.Chokepoint.{ok-injective}
use opentheory.Crew.Store.{
  ProjectRole, is_owner, ProjectMember, Store, Acting, is_member_row, membership, set_role,
  drop_member, owns, owners,
}
use opentheory.Crew.Gates.{ensure_can_manage, manager, may_manage, require_project, is_human}
use opentheory.Crew.Members.{remove_member, remove_project_member}
use opentheory.Crew.Step.{Step, members-Step}
pub mod Transfer
pub mod Handover

abbrev pub weight : ℕ → ProjectMember → ℕ
weight project row = if owns project row then 1 else 0

pub membership_row :
    (project account : ℕ) (rows : List ProjectMember) {m : ProjectMember}
    → membership project account rows ≡ some m
    → (m.project_id ≡ project) × (m.account_id ≡ account)
membership_row project account [] h = cc
membership_row project account (row ∷ rows) {m} h =
    elim (Bool-cases (is_member_row project account row)) [
      | inl here ↦
          let e : some row ≡ some m = rw here at h in
          let same : row ≡ m = cc in rw (← same) (ground arith)
      | inr there ↦ membership_row project account rows (rw there at h)
    ]

pub owners-set_role :
    (project p account : ℕ) (role : ProjectRole) (rows : List ProjectMember) {m : ProjectMember}
    → membership p account rows ≡ some m
    → owners project (set_role p account role rows) + weight project m
      ≡ owners project rows + weight project (record m { role = role })
owners-set_role project p account role [] h = cc
owners-set_role project p account role (row ∷ rows) {m} h =
    elim (Bool-cases (is_member_row p account row)) [
      | inl here ↦
          let e : some row ≡ some m = rw here at h in
          let same : row ≡ m = cc in rw (here, ← same) (omega arith)
      | inr there ↦
          let rest = owners-set_role project p account role rows {m = m} (rw there at h) in
          rw there (omega arith)
    ]

owners-drop_member :
    (project p account : ℕ) (rows : List ProjectMember) {m : ProjectMember}
    → membership p account rows ≡ some m
    → owners project (drop_member p account rows) + weight project m ≡ owners project rows
owners-drop_member project p account [] h = cc
owners-drop_member project p account (row ∷ rows) {m} h =
    elim (Bool-cases (is_member_row p account row)) [
      | inl here ↦
          let e : some row ≡ some m = rw here at h in
          let same : row ≡ m = cc in rw (here, ← same) (omega arith)
      | inr there ↦
          let rest = owners-drop_member project p account rows {m = m} (rw there at h) in
          rw there (omega arith)
    ]

pub membership-set_role_other :
    (p a b : ℕ) (role : ProjectRole) (rows : List ProjectMember)
    → a ≢ b
    → membership p b (set_role p a role rows) ≡ membership p b rows
membership-set_role_other p a b role [] ne = refl
membership-set_role_other p a b role (row ∷ rows) ne =
    ground (arith, membership-set_role_other p a b role rows ne)

-- The acting account has the owner's row.
abbrev pub OwnerActs : Store → ℕ → Acting → Type 0
OwnerActs store project acting =
    (account : ℕ) × (m : ProjectMember) × (acting.account_id ≡ some account)
    × (membership project account store.members ≡ some m)
    × (is_owner m.role ≡ true)

owner_found :
    (store : Store) (project : ℕ) (acting : Acting) (account : ℕ) (o : Option ProjectMember)
    {x : Unit {0}}
    → acting.account_id ≡ some account
    → membership project account store.members ≡ o
    → may_manage true o ≡ ok x
    → OwnerActs store project acting
owner_found store project acting account none is e h = cc
owner_found store project acting account (some m) is e h =
    (account, m, is, e, unless_ok (is_owner m.role) forbidden h)

owner_known :
    (store : Store) (project : ℕ) (acting : Acting) (o : Option ℕ) {x : Unit {0}}
    → acting.account_id ≡ o
    → manager store project true o ≡ ok x
    → OwnerActs store project acting
owner_known store project acting none is h = cc
owner_known store project acting (some account) is h =
    owner_found store project acting account (membership project account store.members) is refl h

pub ensure_can_manage-OwnerActs :
    (store : Store) (project : ℕ) (acting : Acting) {x : Unit {0}}
    → ensure_can_manage store project acting true ≡ ok x
    → OwnerActs store project acting
unfolding ensure_can_manage
ensure_can_manage-OwnerActs store project acting h =
    let c1 = bind_ok (require_project store project) _ h in
    let c2 = bind_ok (raise_if (not (is_human acting.type)) forbidden) _ c1.2 in
    owner_known store project acting acting.account_id refl c2.2

pub remove_project_member-Step :
    (store : Store) (project account : ℕ) (acting : Acting) {after : Store}
    → remove_project_member store project account acting ≡ ok after
    → Step store after
unfolding remove_project_member remove_member
remove_project_member-Step store project account acting h =
    let c1 = bind_ok (ensure_can_manage store project acting true) _ h in
    let c2 = bind_ok (or_raise (membership project account store.members) not_found) _ c1.2 in
    let c3 = bind_ok (raise_if (is_owner c2.0.role) bad_request) _ c2.2 in
    let found = or_raise_ok _ not_found c2.1 in
    let plain = raise_if_ok _ bad_request c3.1 in
    subst (λ s. Step store s) (ok-injective c3.2)
      (members-Step store (drop_member project account store.members) λ p used one.
        (let drop = owners-drop_member p project account store.members found in ground arith))
