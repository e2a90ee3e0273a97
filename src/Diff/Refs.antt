-- ===== src/Diff/Refs.antt =====
-- `resolve_ref` of backend/app/services/diff.py: what a client's token names in a project. `UUID(...)`,
-- with `none` for the `ValueError`, and `str.lower` are parameters.
use opentheory.Base.{ℕ, Bool, ◌&&◌, ◌||◌, Option, none, some, List, [], ◌∷◌, ◌==◌, if◌then◌else◌}
use opentheory.Base.Http.{bad_request, not_found, server_error, Result, ok, err}
use opentheory.Base.Text.{Text, codes, text_eq, strip}
use opentheory.Ledger.Store.{Branch, Checkpoint, Tag, Db, find_branch, find_checkpoint}
use opentheory.Ledger.Merges.{latest_on_branch, latest_main_line}

pub data RefKind : Type 0 where
  checkpoint tag branch main : RefKind

pub record ResolvedRef : Type 0 where
  pub input : Text
  pub kind : RefKind
  pub checkpoint_id : ℕ
  pub branch_id : Option ℕ
  pub tag_id : Option ℕ
  pub label : Text

abbrev pub find_tag : ℕ → List Tag → Option Tag
find_tag id [] = none
find_tag id (row ∷ rows) = if row.id == id then some row else find_tag id rows

-- The project's tag with this name; the table has at most one.
abbrev pub tag_named : ℕ → Text → List Tag → Option Tag
tag_named project name [] = none
tag_named project name (row ∷ rows) =
    if row.project_id == project && text_eq row.name name
    then some row
    else tag_named project name rows

abbrev pub branches_named : ℕ → Text → List Branch → List Branch
branches_named project name [] = []
branches_named project name (row ∷ rows) =
    let rest = branches_named project name rows in
    if row.project_id == project && text_eq row.name name then row ∷ rest else rest

-- A row that `db.get` found, if it is one of the project.
abbrev pub of_project {ℓ} : {A : Type ℓ} → (A → ℕ) → ℕ → Option A → Option A
of_project owner project none = none
of_project owner project (some row) = if owner row == project then some row else none

abbrev pub tag_pin : Text → Tag → ResolvedRef
tag_pin value row = record {
  input = value;
  kind = tag;
  checkpoint_id = row.checkpoint_id;
  branch_id = none;
  tag_id = some row.id;
  label = row.name;
}

abbrev pub branch_tip : Text → Branch → Option Checkpoint → Result ResolvedRef
branch_tip value row none = err not_found
branch_tip value row (some tip) = ok (record {
  input = value;
  kind = branch;
  checkpoint_id = tip.id;
  branch_id = some row.id;
  tag_id = none;
  label = row.name;
})

abbrev pub main_tip : Text → Option Checkpoint → Result ResolvedRef
main_tip value none = err not_found
main_tip value (some tip) = ok (record {
  input = value;
  kind = main;
  checkpoint_id = tip.id;
  branch_id = none;
  tag_id = none;
  label = codes "main";
})

abbrev pub resolve_found :
    Db → Text → Option Checkpoint → Option Tag → Option Branch → Result ResolvedRef
resolve_found db value (some row) _ _ = ok (record {
  input = value;
  kind = checkpoint;
  checkpoint_id = row.id;
  branch_id = row.branch_id;
  tag_id = none;
  label = row.summary;
})
resolve_found db value none (some row) _ = ok (tag_pin value row)
resolve_found db value none none (some row) = branch_tip value row (latest_on_branch db row.id)
resolve_found db value none none none = err not_found

abbrev pub resolve_id : Db → ℕ → Text → ℕ → Result ResolvedRef
resolve_id db project value id =
    resolve_found db value
      (of_project (λ (row : Checkpoint). row.project_id) project
        (find_checkpoint id db.checkpoints))
      (of_project (λ (row : Tag). row.project_id) project (find_tag id db.tags))
      (of_project (λ (row : Branch). row.project_id) project (find_branch id db.branches))

-- `scalar_one_or_none` raises on two branches, and the route answers 500.
abbrev pub resolve_named : Db → Text → Option Tag → List Branch → Result ResolvedRef
resolve_named db value (some row) _ = ok (tag_pin value row)
resolve_named db value none [] = err not_found
resolve_named db value none (row ∷ []) = branch_tip value row (latest_on_branch db row.id)
resolve_named db value none (row ∷ other ∷ rows) = err server_error

-- `_MAIN_ALIASES`
abbrev pub is_main : Text → Bool
is_main name =
    text_eq name (codes "main")
    || text_eq name (codes "mainline")
    || text_eq name (codes "@main")
    || text_eq name (codes "head")

module _ (uuid : Text → Option ℕ) (lower : Text → Text) where
  abbrev pub resolve_value : Db → ℕ → Text → Option ℕ → Result ResolvedRef
  resolve_value db project value (some id) = resolve_id db project value id
  resolve_value db project value none =
      if is_main (lower value)
      then main_tip value (latest_main_line db project none)
      else resolve_named db value (tag_named project value db.tags)
          (branches_named project value db.branches)

  unfoldable pub resolve_ref : Db → ℕ → Text → Result ResolvedRef
  unfolding strip
  resolve_ref db project raw =
      let value = strip raw in
      if text_eq value [] then err bad_request else resolve_value db project value (uuid value)
