-- ===== src/Ledger/Branches.antt =====
-- backend/app/services/branches.py: forking a line and closing it.
use opentheory.Base.{ℕ, ◌+◌, not, Option, none, some, List, [], ◌∷◌, ◌++◌}
use opentheory.Base.Http.{bad_request, not_found, Result, ok, ◌>>=◌, ◌>>◌, raise_if, or_raise}
use opentheory.Base.Text.{Text, codes}
use opentheory.Ledger.Store.{
  Actor, BranchStatus, open_line, closed, dead_end, is_open, Branch, forked, ended, RefInput, Db,
  find_branch, set_status,
}
use opentheory.Ledger.Checkpoints.{
  CheckpointCreate, Extras, in_project, check_project, check_thread, checkpoint_owner,
  create_checkpoint,
}

pub record BranchCreate : Type 0 where
  pub from_checkpoint_id : ℕ
  pub name : Text
  pub reason : Option Text
  pub thread_id : Option ℕ

abbrev pub no_extras : List RefInput → Extras
no_extras refs = record {
  extra_refs = refs;
  tool_invocations = [];
  contribution_action = none;
  sponsored_by = none;
}

abbrev pub quoted : Text → Text
quoted name = codes "'" ++ (name ++ codes "'")

abbrev pub new_branch : Db → ℕ → BranchCreate → Branch
new_branch db project payload = record {
  id = db.next_id;
  project_id = project;
  thread_id = payload.thread_id;
  forked_from_checkpoint_id = some payload.from_checkpoint_id;
  name = payload.name;
  reason = payload.reason;
  status = open_line;
}

abbrev pub with_branch : Db → Branch → Db
with_branch db branch = record db { branches = branch ∷ db.branches; next_id = db.next_id + 1 }

abbrev pub fork_checkpoint : Branch → BranchCreate → CheckpointCreate
fork_checkpoint branch payload = record {
  thread_id = payload.thread_id;
  branch_id = some branch.id;
  summary = codes "Forked branch " ++ quoted payload.name;
  content = forked branch.id payload.from_checkpoint_id payload.reason;
  stage = none;
  notes = none;
  parent_ids = payload.from_checkpoint_id ∷ [];
  refs = [];
}

abbrev pub branch_ref : ℕ → RefInput
branch_ref id = record { target_type = "branch"; target_id = id; role = "created" }

unfoldable pub create_branch : Db → ℕ → BranchCreate → Actor → Result (Branch × Db)
create_branch db project payload actor = do
  check_project db project
  in_project project (checkpoint_owner db payload.from_checkpoint_id)
  check_thread db project payload.thread_id
  let branch = new_branch db project payload
  written ←
      create_checkpoint (with_branch db branch) project (fork_checkpoint branch payload) actor
        (record (no_extras (branch_ref branch.id ∷ [])) {
          contribution_action = some "create_branch";
        })
  ok (branch, written.1)

-- The two outcomes of `BranchClose`, and `_CLOSE_STATUS`.
pub data CloseOutcome : Type 0 where
  abandoned superseded : CloseOutcome

abbrev pub close_status : CloseOutcome → BranchStatus
close_status abandoned = dead_end
close_status superseded = closed

abbrev pub outcome_text : CloseOutcome → Text
outcome_text abandoned = codes "dead_end"
outcome_text superseded = codes "closed"

abbrev pub close_checkpoint : Branch → CloseOutcome → Option Text → CheckpointCreate
close_checkpoint branch outcome reason = record {
  thread_id = branch.thread_id;
  branch_id = none;
  summary =
      codes "Closed branch "
      ++ (quoted branch.name ++ (codes " (" ++ (outcome_text outcome ++ codes ")")));
  content = ended branch.id (close_status outcome) reason;
  stage = none;
  notes = none;
  parent_ids = [];
  refs = [];
}

abbrev pub closed_ref : ℕ → RefInput
closed_ref id = record { target_type = "branch"; target_id = id; role = "closed" }

unfoldable pub close_branch : Db → ℕ → CloseOutcome → Option Text → Actor → Result (Branch × Db)
close_branch db branch_id outcome reason actor = do
  branch ← or_raise (find_branch branch_id db.branches) not_found
  raise_if (not (is_open branch.status)) bad_request
  let flipped = record db { branches = set_status branch_id (close_status outcome) db.branches }
  written ←
      create_checkpoint flipped branch.project_id (close_checkpoint branch outcome reason) actor
        (record (no_extras (closed_ref branch_id ∷ [])) {
          contribution_action = some "close_branch";
        })
  ok (record branch { status = close_status outcome }, written.1)
