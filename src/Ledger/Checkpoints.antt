-- ===== src/Ledger/Checkpoints.antt =====
-- backend/app/services/checkpoints.py: `create_checkpoint`, the one writer of checkpoints.
use opentheory.Base.{
  ℕ, ◌+◌, not, Option, none, some, List, [], ◌∷◌, ◌++◌, ◌==◌, if◌then◌else◌, elem,
}
use opentheory.Base.Http.{
  bad_request, not_found, unprocessable, Result, ok, err, ◌>>=◌, ◌>>◌, raise_if,
}
use Prim.Native.String.{String}
use text.Mathlib.Text.{◌==◌ as str_eq}
use opentheory.Base.Text.{Text}
use opentheory.Ledger.Store.{
  ActorType, agent, Actor, is_open, Branch, Content, Checkpoint, RefInput, CheckpointRef,
  Contribution, Db, owner, find_branch, find_checkpoint, tag_owner,
}

-- The client's part of a new checkpoint.
pub record CheckpointCreate : Type 0 where
  pub thread_id : Option ℕ
  pub branch_id : Option ℕ
  pub summary : Text
  pub stage : Option String
  pub content : Content
  pub notes : Option Text
  pub parent_ids : List ℕ
  pub refs : List RefInput

-- The keyword arguments that only services give.
pub record Extras : Type 0 where
  pub extra_refs : List RefInput
  pub tool_invocations : List Text
  pub contribution_action : Option String
  pub sponsored_by : Option ℕ

-- `if row is None: raise 404`, then `if row.project_id != project_id: raise 400`.
abbrev pub in_project : ℕ → Option ℕ → Result (Unit {0})
in_project project none = err not_found
in_project project (some p) = raise_if (not (p == project)) bad_request

abbrev pub check_project : Db → ℕ → Result (Unit {0})
check_project db project = raise_if (not (elem project db.projects)) not_found

abbrev pub check_thread : Db → ℕ → Option ℕ → Result (Unit {0})
check_thread db project none = ok tt
check_thread db project (some thread) = in_project project (owner thread db.threads)

abbrev pub branch_open : ℕ → Option Branch → Result (Unit {0})
branch_open project none = err not_found
branch_open project (some branch) = do
  raise_if (not (branch.project_id == project)) bad_request
  raise_if (not (is_open branch.status)) bad_request

abbrev pub check_branch : Db → ℕ → Option ℕ → Result (Unit {0})
check_branch db project none = ok tt
check_branch db project (some branch) = branch_open project (find_branch branch db.branches)

abbrev pub project_of : Option Checkpoint → Option ℕ
project_of none = none
project_of (some row) = some row.project_id

-- The loop that drops repeated ids and checks the others: each must name a row of this project.
unfoldable pub validate_each : (ℕ → Option ℕ) → ℕ → List ℕ → List ℕ → Result (List ℕ)
validate_each find project seen [] = ok []
validate_each find project seen (id ∷ ids) =
    let again = elem id seen in
    let rest = validate_each find project (if again then seen else id ∷ seen) ids in
    if again then rest else do in_project project (find id); valid ← rest; ok (id ∷ valid)

abbrev pub checkpoint_owner : Db → ℕ → Option ℕ
checkpoint_owner db id = project_of (find_checkpoint id db.checkpoints)

-- `_validate_parents`
unfoldable pub validate_parents : Db → ℕ → List ℕ → Result (List ℕ)
validate_parents db project ids = validate_each (checkpoint_owner db) project [] ids

abbrev pub branch_owner : Option Branch → Option ℕ
branch_owner none = none
branch_owner (some row) = some row.project_id

-- The row that a reference names, by `_REF_TARGET_MODELS`: no model, or the target's project if
-- there is such a row.
unfoldable pub ref_owner : Db → String → ℕ → Option (Option ℕ)
ref_owner db type id =
    if str_eq type "claim"
    then some (owner id db.claims)
    else if str_eq type "evidence"
    then some (owner id db.evidence)
    else if str_eq type "artifact"
    then some (owner id db.artifacts)
    else if str_eq type "thread"
    then some (owner id db.threads)
    else if str_eq type "branch"
    then some (branch_owner (find_branch id db.branches))
    else if str_eq type "validation"
    then some (owner id db.validations)
    else if str_eq type "tag"
    then some (tag_owner id db.tags)
    else none

abbrev pub check_ref : ℕ → Option (Option ℕ) → Result (Unit {0})
check_ref project none = err unprocessable
check_ref project (some target) = in_project project target

unfoldable pub validate_refs : Db → ℕ → List RefInput → Result (Unit {0})
validate_refs db project [] = ok tt
validate_refs db project (ref ∷ refs) = do
  check_ref project (ref_owner db ref.target_type ref.target_id)
  validate_refs db project refs

-- The sponsor of the row, by the actor's type, the `sponsored_by` argument and the sponsor that the
-- actor's session carries: only an agent's checkpoint has one.
unfoldable pub sponsor : ActorType → Option ℕ → Option ℕ → Option ℕ
sponsor agent none carried = carried
sponsor agent (some given) carried = some given
sponsor _ given carried = none

abbrev pub action_or : Option String → String
action_or none = "create_checkpoint"
action_or (some action) = if str_eq action "" then "create_checkpoint" else action

abbrev pub stamp : ℕ → List RefInput → List CheckpointRef → List CheckpointRef
stamp id [] rows = rows
stamp id (ref ∷ refs) rows = record { checkpoint_id = id; target = ref } ∷ stamp id refs rows

-- The rows that the call adds once its checks have passed.
unfoldable pub write_checkpoint :
    Db → ℕ → CheckpointCreate → Actor → Extras → List ℕ → Checkpoint × Db
write_checkpoint db project payload actor extras parents =
    let checkpoint : Checkpoint = record {
      id = db.next_id;
      project_id = project;
      thread_id = payload.thread_id;
      branch_id = payload.branch_id;
      author_id = actor.id;
      sponsored_by_actor_id = sponsor actor.type extras.sponsored_by actor.sponsored_by;
      stage = payload.stage;
      summary = payload.summary;
      content = payload.content;
      notes = payload.notes;
      tool_invocations = extras.tool_invocations;
      parents = parents;
    } in
    let contribution : Contribution = record {
      project_id = project;
      actor_id = actor.id;
      checkpoint_id = db.next_id;
      action = action_or extras.contribution_action;
      target_type = "checkpoint";
      target_id = db.next_id;
    } in
    (
      checkpoint,
      record db {
        checkpoints = checkpoint ∷ db.checkpoints;
        refs = stamp db.next_id (payload.refs ++ extras.extra_refs) db.refs;
        contributions = contribution ∷ db.contributions;
        next_id = db.next_id + 1;
      },
    )

unfoldable pub create_checkpoint :
    Db → ℕ → CheckpointCreate → Actor → Extras → Result (Checkpoint × Db)
create_checkpoint db project payload actor extras = do
  check_project db project
  check_thread db project payload.thread_id
  check_branch db project payload.branch_id
  parents ← validate_parents db project payload.parent_ids
  validate_refs db project payload.refs
  ok (write_checkpoint db project payload actor extras parents)
