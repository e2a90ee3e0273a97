-- ===== src/Ledger/Tests.antt =====
-- A small project history, and the theorems of the ledger on it.
use opentheory.Base.{
  ℕ, ◌≤◌, ◌≡◌, refl, ◌≢◌, ◌↔◌, true, none, some, List, [], ◌∷◌, ◌++◌, map, length, All,
}
use opentheory.Base.Http.{Result, ok, err}
use opentheory.Base.Text.{codes}
use opentheory.Ledger.Store.{
  human, Actor, open_line, merged, dead_end, is_open, Branch, milestone, clean, authored,
  Checkpoint, Tag, Db, find_branch,
}
use opentheory.Ledger.Checkpoints.{
  CheckpointCreate, sponsor, check_project, check_thread, checkpoint_owner, validate_each,
  validate_parents, validate_refs, write_checkpoint, create_checkpoint,
}
use opentheory.Ledger.Branches.{no_extras, BranchCreate, create_branch, abandoned, close_branch}
use opentheory.Ledger.Merges.{
  MergeCreate, load_open_branch, load_sources, load_target, source_heads, merge_branches,
}
use opentheory.Ledger.Tags.{TagCreate, create_tag}
use opentheory.Ledger.Operations.{Op, record_checkpoint, fork, close, merge, tag, run}
use opentheory.Ledger.Validity.{IsValid, run-IsValid}
use opentheory.Ledger.Immutable.{Keeps, run-Keeps, sealed_line_stays}
use opentheory.Ledger.Outcomes.{
  close_branch_iff, close_branch_seals, create_branch_iff, create_branch_opens,
}
use opentheory.Ledger.Outcomes.Heads.{Distinct, HeadAmong}
use opentheory.Ledger.Outcomes.Merging.{MergedRow, merge_branches_synthesizes}
use opentheory.Ledger.Outcomes.Tagging.{Taggable, create_tag_iff}

abbrev seed : Db
seed = record {
  projects = 1 ∷ [];
  threads = record { id = 2; project_id = 1 } ∷ [];
  claims = [];
  evidence = [];
  artifacts = [];
  validations = [];
  branches = [];
  checkpoints = [];
  refs = [];
  contributions = [];
  tags = [];
  next_id = 10;
}

seed-IsValid : IsValid seed
seed-IsValid = record {
  history = tt;
  ids_used = λ id new. elim (new refl) [ ];
  branches_known = λ id b found. cc;
  credits = refl;
}

abbrev ada : Actor
ada = record { id = 7; type = human; sponsored_by = none }

abbrev note : List ℕ → CheckpointCreate
note parents = record {
  thread_id = some 2;
  branch_id = none;
  stage = none;
  summary = codes "note";
  content = authored (codes "{}");
  notes = none;
  parent_ids = parents;
  refs = [];
}

abbrev line_from : ℕ → BranchCreate
line_from checkpoint = record {
  from_checkpoint_id = checkpoint;
  name = codes "idea";
  reason = none;
  thread_id = some 2;
}

abbrev into_main : List ℕ → MergeCreate
into_main sources = record {
  source_branch_ids = sources;
  target_branch_id = none;
  resolution = clean;
  rationale = none;
  claim_ids = [];
  summary = none;
  thread_id = none;
}

abbrev release_tag : ℕ → TagCreate
release_tag checkpoint = record {
  checkpoint_id = checkpoint;
  name = codes "v1";
  kind = milestone;
  notes = none;
}

-- The root 10, a branch 11 with checkpoint 12, a branch 13 with checkpoint 14, one call that fails.
abbrev opening : List (Actor × Op)
opening =
    (ada, record_checkpoint 1 (note []) (no_extras []))
    ∷ (ada, fork 1 (line_from 10))
    ∷ (ada, fork 1 (line_from 10))
    ∷ (ada, fork 1 (line_from 99))
    ∷ []

abbrev opened : Db
opened = run seed opening

opened-IsValid : IsValid opened
opened-IsValid = run-IsValid seed opening seed-IsValid

-- What follows: a merge of both lines, a tag, a close that comes too late.
abbrev ending : List (Actor × Op)
ending =
    (ada, merge 1 (into_main (11 ∷ 13 ∷ 11 ∷ [])))
    ∷ (ada, tag 1 (release_tag 15))
    ∷ (ada, close 13 abandoned none)
    ∷ []

opening_runs : (length opened.checkpoints ≡ 3) × (opened.next_id ≡ 15)
unfolding create_checkpoint validate_parents validate_each validate_refs write_checkpoint sponsor
    create_branch
opening_runs = (refl, refl)

ending_runs :
    (length (run opened ending).checkpoints ≡ 5)
    × (length (run opened ending).tags ≡ 1)
    × (map (λ (b : Branch). b.status) (run opened ending).branches ≡ merged ∷ merged ∷ [])
unfolding create_checkpoint validate_parents validate_each validate_refs write_checkpoint sponsor
    create_branch load_open_branch load_sources load_target source_heads merge_branches create_tag
    close_branch
ending_runs = (refl, refl, refl)

run-IsValid_example : IsValid (run seed (opening ++ ending))
run-IsValid_example = run-IsValid seed (opening ++ ending) seed-IsValid

run-Keeps_example : Keeps opened (run opened ending)
run-Keeps_example = run-Keeps opened ending opened-IsValid

abbrev ended : Db
ended = run opened ending

ended-IsValid : IsValid ended
ended-IsValid = run-IsValid opened ending opened-IsValid

abbrev line_11 : Branch
line_11 = record {
  id = 11;
  project_id = 1;
  thread_id = some 2;
  forked_from_checkpoint_id = some 10;
  name = codes "idea";
  reason = none;
  status = merged;
}

-- Attempts on a line that is sealed, and a new fork from its checkpoint.
abbrev late : List (Actor × Op)
late =
    (ada, close 11 abandoned none)
    ∷ (ada, merge 1 (into_main (11 ∷ 13 ∷ [])))
    ∷ (ada, fork 1 (line_from 12))
    ∷ []

sealed_line_stays_example :
    (find_branch 11 (run ended late).branches ≡ some line_11)
    × ((new : List Checkpoint) × ((run ended late).checkpoints ≡ new ++ ended.checkpoints)
        × All (λ (row : Checkpoint). row.branch_id ≢ some 11) new)
unfolding create_checkpoint validate_parents validate_each validate_refs write_checkpoint sponsor
    create_branch load_open_branch load_sources load_target source_heads merge_branches create_tag
    close_branch
sealed_line_stays_example = sealed_line_stays ended late 11 line_11 ended-IsValid refl refl

close_branch_iff_example :
    ((result : Branch × Db) × (close_branch opened 11 abandoned none ada ≡ ok result))
    ↔ ((row : Branch) × (find_branch 11 opened.branches ≡ some row) × (is_open row.status ≡ true))
close_branch_iff_example = close_branch_iff opened 11 abandoned none ada opened-IsValid

create_branch_iff_example :
    ((result : Branch × Db) × (create_branch opened 1 (line_from 12) ada ≡ ok result)) ↔ (
      (check_project opened 1 ≡ ok tt)
      × (checkpoint_owner opened 12 ≡ some 1)
      × (check_thread opened 1 (some 2) ≡ ok tt))
create_branch_iff_example = create_branch_iff opened 1 (line_from 12) ada

create_tag_iff_example :
    ((result : Tag × Db) × (create_tag ended 1 (release_tag 12) ada ≡ ok result))
    ↔ Taggable ended 1 (release_tag 12) ada
create_tag_iff_example = create_tag_iff ended 1 (release_tag 12) ada ended-IsValid

-- What a call returned, or else what is given.
abbrev value_or {ℓ} : {A : Type ℓ} → A → Result A → A
value_or default (ok a) = a
value_or default (err e) = default

abbrev closing : Branch × Db
closing = value_or (line_11, seed) (close_branch opened 11 abandoned none ada)

close_branch_seals_example :
    (find_branch 11 closing.1.branches ≡ some closing.0)
    × (closing.0.status ≡ dead_end)
    × ((row : Checkpoint) × (closing.1.checkpoints ≡ row ∷ opened.checkpoints)
        × (row.branch_id ≡ none))
unfolding create_checkpoint validate_parents validate_each validate_refs write_checkpoint sponsor
    create_branch load_open_branch load_sources load_target source_heads merge_branches create_tag
    close_branch
close_branch_seals_example = close_branch_seals opened 11 abandoned none ada {result = closing} refl

abbrev forking : Branch × Db
forking = value_or (line_11, seed) (create_branch opened 1 (line_from 12) ada)

create_branch_opens_example :
    (find_branch forking.0.id forking.1.branches ≡ some forking.0)
    × (forking.0.status ≡ open_line)
    × (forking.0.project_id ≡ 1)
    × ((row : Checkpoint) × (forking.1.checkpoints ≡ row ∷ opened.checkpoints)
        × (row.branch_id ≡ some forking.0.id)
        × (row.parents ≡ 12 ∷ []))
unfolding create_checkpoint validate_parents validate_each validate_refs write_checkpoint sponsor
    create_branch load_open_branch load_sources load_target source_heads merge_branches create_tag
    close_branch
create_branch_opens_example =
    create_branch_opens opened 1 (line_from 12) ada {result = forking} refl

abbrev root : Checkpoint
root = record {
  id = 10;
  project_id = 1;
  thread_id = some 2;
  branch_id = none;
  author_id = 7;
  sponsored_by_actor_id = none;
  stage = none;
  summary = codes "note";
  content = authored (codes "{}");
  notes = none;
  tool_invocations = [];
  parents = [];
}

abbrev merging : Checkpoint × Db
merging = value_or (root, seed) (merge_branches opened 1 (into_main (11 ∷ 13 ∷ 11 ∷ [])) ada)

merge_branches_synthesizes_example :
    All (MergedRow 1 merging.1.branches) (11 ∷ 13 ∷ [])
    × All (HeadAmong opened merging.0.parents) (11 ∷ 13 ∷ [])
    × Distinct merging.0.parents
    × (2 ≤ length merging.0.parents)
    × (merging.0.branch_id ≡ none)
unfolding create_checkpoint validate_parents validate_each validate_refs write_checkpoint sponsor
    create_branch load_open_branch load_sources load_target source_heads merge_branches create_tag
    close_branch
merge_branches_synthesizes_example =
    merge_branches_synthesizes opened 1 (into_main (11 ∷ 13 ∷ 11 ∷ [])) ada {result = merging} refl
