-- ===== src/Ledger/Tags.antt =====
-- backend/app/services/tags.py: named, immutable pointers at checkpoints.
use opentheory.Base.{
  ℕ, ◌+◌, Bool, false, not, ◌&&◌, ◌||◌, Option, none, some, List, [], ◌∷◌, ◌++◌, ◌==◌,
  if◌then◌else◌,
}
use opentheory.Base.Http.{
  bad_request, not_found, conflict, Result, ok, ◌>>=◌, ◌>>◌, raise_if, or_raise,
}
use opentheory.Base.Text.{Text, codes, text_eq}
use opentheory.Ledger.Store.{
  Actor, is_open, Branch, TagKind, milestone, validated, retraction, pinned, Checkpoint, RefInput,
  Tag, Db, find_branch, find_checkpoint,
}
use opentheory.Ledger.Checkpoints.{CheckpointCreate, check_project, create_checkpoint}
use opentheory.Ledger.Branches.{no_extras, quoted}

pub record TagCreate : Type 0 where
  pub checkpoint_id : ℕ
  pub name : Text
  pub kind : TagKind
  pub notes : Option Text

abbrev pub name_taken : ℕ → Text → List Tag → Bool
name_taken project name [] = false
name_taken project name (tag ∷ tags) =
    tag.project_id == project && text_eq tag.name name || name_taken project name tags

abbrev pub line_if_open : ℕ → Option Branch → Option ℕ
line_if_open id none = none
line_if_open id (some branch) = if is_open branch.status then some id else none

-- Where the tag's checkpoint is recorded: the tagged line while it is open, else the main line.
abbrev pub recording_branch_id : Db → Option ℕ → Option ℕ
recording_branch_id db none = none
recording_branch_id db (some id) = line_if_open id (find_branch id db.branches)

abbrev pub kind_text : TagKind → Text
kind_text milestone = codes "milestone"
kind_text validated = codes "validated"
kind_text retraction = codes "retraction"

abbrev pub new_tag : Db → ℕ → TagCreate → Actor → Tag
new_tag db project payload actor = record {
  id = db.next_id;
  project_id = project;
  checkpoint_id = payload.checkpoint_id;
  author_id = actor.id;
  name = payload.name;
  kind = payload.kind;
  notes = payload.notes;
}

abbrev pub tag_checkpoint : Db → Tag → Checkpoint → CheckpointCreate
tag_checkpoint db tag tagged = record {
  thread_id = tagged.thread_id;
  branch_id = recording_branch_id db tagged.branch_id;
  summary =
      codes "Tagged " ++ (quoted tag.name ++ (codes " (" ++ (kind_text tag.kind ++ codes ")")));
  content = pinned tag.id tag.name tag.kind tag.checkpoint_id;
  stage = none;
  notes = tag.notes;
  parent_ids = [];
  refs = [];
}

abbrev pub tag_ref : ℕ → RefInput
tag_ref id = record { target_type = "tag"; target_id = id; role = "created" }

unfoldable pub create_tag : Db → ℕ → TagCreate → Actor → Result (Tag × Db)
create_tag db project payload actor = do
  check_project db project
  raise_if (name_taken project payload.name db.tags) conflict
  tagged ← or_raise (find_checkpoint payload.checkpoint_id db.checkpoints) not_found
  raise_if (not (tagged.project_id == project)) bad_request
  let tag = new_tag db project payload actor
  let with_tag = record db { tags = tag ∷ db.tags; next_id = db.next_id + 1 }
  written ←
      create_checkpoint with_tag project (tag_checkpoint db tag tagged) actor
        (record (no_extras (tag_ref tag.id ∷ [])) { contribution_action = some "tag" })
  ok (tag, written.1)
