-- ===== src/Crew/Members.antt =====
-- backend/app/services/project_members.py: removing a member and changing a role, with the gate that
-- the routes of backend/app/api/routes/projects.py put before them; and the owner row of
-- backend/app/services/projects.py, whose contribution row is the ledger's. The unique index on owners
-- is checked where a call commits.
use opentheory.Base.{ℕ, ◌+◌, true, not, ◌&&◌, Option, none, some, List, ◌∷◌, ltb, if◌then◌else◌}
use opentheory.Base.Http.{
  HttpError, bad_request, not_found, conflict, Result, ok, ◌>>=◌, ◌>>◌, raise_if, or_raise,
}
use opentheory.Base.Text.{Text}
use opentheory.Crew.Store.{
  ProjectRole, owner, admin, is_owner, ProjectMember, Store, Acting, slug_taken, membership,
  set_role, drop_member, owners,
}
use opentheory.Crew.Gates.{ensure_can_manage}
use opentheory.Crew.Roster.{suspend_agents_on_owner_transfer}

-- The violation of `uq_project_one_owner`, with the status that the caller makes of it.
abbrev pub one_owner : ℕ → List ProjectMember → HttpError → Result (Unit {0})
one_owner project members code = raise_if (ltb 1 (owners project members)) code

unfoldable pub remove_member : Store → ℕ → ℕ → Result Store
remove_member store project account = do
  member ← or_raise (membership project account store.members) not_found
  raise_if (is_owner member.role) bad_request
  ok (record store { members = drop_member project account store.members })

-- The demotion of the acting owner, if the row found is the owner's.
abbrev pub demote_found : Store → ℕ → ℕ → ℕ → Option ProjectMember → Store
demote_found store project account now none = store
demote_found store project account now (some row) =
    if is_owner row.role
    then suspend_agents_on_owner_transfer
        (record store { members = set_role project account admin store.members }) project account
        now
    else store

abbrev pub demote_owner : Store → ℕ → ℕ → Option ℕ → Store
demote_owner store project now none = store
demote_owner store project now (some account) =
    demote_found store project account now (membership project account store.members)

-- The store in which the new role is written: another one only if ownership moves.
abbrev pub role_base : Store → ℕ → ProjectRole → ProjectMember → Acting → ℕ → Store
role_base store project role target acting now =
    if is_owner role && not (is_owner target.role)
    then demote_owner store project now acting.account_id
    else store

abbrev pub write_role : Store → ℕ → ℕ → ProjectRole → Result Store
write_role base project account role = do
  one_owner project (set_role project account role base.members) conflict
  ok (record base { members = set_role project account role base.members })

unfoldable pub set_member_role : Store → ℕ → ℕ → ProjectRole → Acting → ℕ → Result Store
set_member_role store project account role acting now = do
  target ← or_raise (membership project account store.members) not_found
  raise_if (is_owner target.role && not (is_owner role)) bad_request
  write_role (role_base store project role target acting now) project account role

-- The routes `DELETE` and `PATCH` on a member.
unfoldable pub remove_project_member : Store → ℕ → ℕ → Acting → Result Store
remove_project_member store project account acting = do
  ensure_can_manage store project acting true
  remove_member store project account

unfoldable pub update_project_member : Store → ℕ → ℕ → ProjectRole → Acting → ℕ → Result Store
update_project_member store project account role acting now = do
  ensure_can_manage store project acting true
  set_member_role store project account role acting now

abbrev pub owner_rows : ℕ → Option ℕ → List ProjectMember → List ProjectMember
owner_rows project none rows = rows
owner_rows project (some account) rows =
    record {
      project_id = project;
      account_id = account;
      role = owner;
      invited_by_account_id = some account;
    }
    ∷ rows

unfoldable pub create_project : Store → Text → Acting → Result Store
create_project store slug acting = do
  raise_if (slug_taken slug store.projects) conflict
  ok (record store {
    projects = record { id = store.next_id; slug = slug } ∷ store.projects;
    members = owner_rows store.next_id acting.account_id store.members;
    next_id = store.next_id + 1;
  })
