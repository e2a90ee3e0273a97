-- ===== src/Ledger/Merges.antt =====
-- backend/app/services/merges.py: synthesizing open lines into a checkpoint with several parents.
use opentheory.Base.{
  ℕ, Bool, true, false, not, ◌&&◌, Option, none, some, List, [], ◌∷◌, ◌++◌, map, ltb, ◌==◌,
  if◌then◌else◌, is_none, opt_eq, length, elem, dedup,
}
use opentheory.Base.Http.{bad_request, not_found, Result, ok, ◌>>=◌, ◌>>◌, raise_if, or_raise}
use Prim.Native.String.{String}
use opentheory.Base.Text.{Text, codes, strip, join}
use opentheory.Ledger.Store.{
  Actor, merged, is_open, Branch, MergeResolution, synthesized, Checkpoint, RefInput, Db, owner,
  find_branch, set_status,
}
use opentheory.Ledger.Checkpoints.{
  CheckpointCreate, Extras, check_project, check_thread, validate_each, create_checkpoint,
}
use opentheory.Ledger.Branches.{no_extras, quoted}

pub record MergeCreate : Type 0 where
  pub source_branch_ids : List ℕ
  pub target_branch_id : Option ℕ
  pub resolution : MergeResolution
  pub rationale : Option Text
  pub claim_ids : List ℕ
  pub summary : Option Text
  pub thread_id : Option ℕ

-- The newest row for which the test holds.
abbrev pub newest : (Checkpoint → Bool) → List Checkpoint → Option Checkpoint
newest test [] = none
newest test (row ∷ rows) = if test row then some row else newest test rows

abbrev pub latest_on_branch : Db → ℕ → Option Checkpoint
latest_on_branch db branch = newest (λ row. opt_eq row.branch_id (some branch)) db.checkpoints

abbrev pub in_thread : Option ℕ → Checkpoint → Bool
in_thread none row = true
in_thread (some thread) row = opt_eq row.thread_id (some thread)

abbrev pub latest_main_line : Db → ℕ → Option ℕ → Option Checkpoint
latest_main_line db project thread =
    newest (λ row. row.project_id == project && (is_none row.branch_id && in_thread thread row))
      db.checkpoints

-- `_load_open_branch`
unfoldable pub load_open_branch : Db → ℕ → ℕ → Result Branch
load_open_branch db project id = do
  branch ← or_raise (find_branch id db.branches) not_found
  raise_if (not (branch.project_id == project)) bad_request
  raise_if (not (is_open branch.status)) bad_request
  ok branch

unfoldable pub load_sources : Db → ℕ → List ℕ → Result (List Branch)
load_sources db project [] = ok []
load_sources db project (id ∷ ids) = do
  source ← load_open_branch db project id
  sources ← load_sources db project ids
  ok (source ∷ sources)

unfoldable pub load_target : Db → ℕ → Option ℕ → Result (Option Branch)
unfolding load_open_branch
load_target db project none = ok none
load_target db project (some id) = do target ← load_open_branch db project id; ok (some target)

-- The one thread that all sources share, if they do.
abbrev pub all_in_thread : Option ℕ → List Branch → Bool
all_in_thread thread [] = true
all_in_thread thread (branch ∷ rest) = opt_eq branch.thread_id thread && all_in_thread thread rest

abbrev pub shared_thread : List Branch → Option ℕ
shared_thread [] = none
shared_thread (branch ∷ rest) =
    if all_in_thread branch.thread_id rest then branch.thread_id else none

abbrev pub merge_thread : Db → ℕ → Option ℕ → List Branch → Result (Option ℕ)
merge_thread db project none sources = ok (shared_thread sources)
merge_thread db project (some thread) sources = do
  check_thread db project (some thread)
  ok (some thread)

-- `_add_parent`: a head that is there and not collected yet.
abbrev pub add_parent : Option Checkpoint → List ℕ → List ℕ
add_parent none parents = parents
add_parent (some row) parents = if elem row.id parents then parents else parents ++ (row.id ∷ [])

unfoldable pub source_heads : Db → List Branch → List ℕ → Result (List ℕ)
source_heads db [] parents = ok parents
source_heads db (branch ∷ rest) parents = do
  head ← or_raise (latest_on_branch db branch.id) bad_request
  source_heads db rest (add_parent (some head) parents)

abbrev pub target_head : Db → ℕ → Option ℕ → Option Branch → Option Checkpoint
target_head db project thread none = latest_main_line db project thread
target_head db project thread (some target) = latest_on_branch db target.id

abbrev pub set_merged : List Branch → List Branch → List Branch
set_merged [] rows = rows
set_merged (source ∷ sources) rows = set_merged sources (set_status source.id merged rows)

abbrev pub branch_id_of : Option Branch → Option ℕ
branch_id_of none = none
branch_id_of (some branch) = some branch.id

-- `(text or "").strip() or None`
abbrev pub non_empty : Text → Option Text
non_empty [] = none
non_empty (c ∷ s) = some (c ∷ s)

abbrev pub stripped : Option Text → Option Text
stripped none = non_empty (strip [])
stripped (some s) = non_empty (strip s)

abbrev pub target_label : Option Branch → Text
target_label none = codes "the main line"
target_label (some branch) = quoted branch.name

abbrev pub merge_summary : Option Text → List Branch → Option Branch → Text
merge_summary (some (c ∷ s)) sources target = c ∷ s
merge_summary _ sources target =
    codes "Merged "
    ++ (join (codes ", ") (map (λ branch. quoted branch.name) sources)
        ++ (codes " into " ++ target_label target))

abbrev pub merged_ref : String → ℕ → RefInput
merged_ref type id = record { target_type = type; target_id = id; role = "merged" }

abbrev pub merge_checkpoint :
    MergeCreate → List Branch → Option Branch → Option ℕ → List ℕ → List ℕ → CheckpointCreate
merge_checkpoint payload sources target thread parents claims = record {
  thread_id = thread;
  branch_id = branch_id_of target;
  summary = merge_summary payload.summary sources target;
  content =
      synthesized payload.resolution (stripped payload.rationale)
        (map (λ branch. branch.id) sources) (branch_id_of target) claims;
  stage = none;
  notes = stripped payload.rationale;
  parent_ids = parents;
  refs = [];
}

abbrev pub merge_extras : List Branch → List ℕ → Extras
merge_extras sources claims =
    record (no_extras
      (map (λ branch. merged_ref "branch" branch.id) sources ++ map (merged_ref "claim") claims)) {
        contribution_action = some "merge";
      }

-- Whether the target is given and among the sources.
abbrev pub target_among : Option ℕ → List ℕ → Bool
target_among none ids = false
target_among (some id) ids = elem id ids

unfoldable pub merge_branches : Db → ℕ → MergeCreate → Actor → Result (Checkpoint × Db)
merge_branches db project payload actor = do
  check_project db project
  let source_ids = dedup [] payload.source_branch_ids
  raise_if (length source_ids == 0) bad_request
  raise_if (target_among payload.target_branch_id source_ids) bad_request
  sources ← load_sources db project source_ids
  target ← load_target db project payload.target_branch_id
  thread ← merge_thread db project payload.thread_id sources
  heads ← source_heads db sources []
  let parents = add_parent (target_head db project thread target) heads
  raise_if (ltb (length parents) 2) bad_request
  claims ← validate_each (λ id. owner id db.claims) project [] payload.claim_ids
  let flipped = record db { branches = set_merged sources db.branches }
  create_checkpoint flipped project (merge_checkpoint payload sources target thread parents claims)
      actor (merge_extras sources claims)
