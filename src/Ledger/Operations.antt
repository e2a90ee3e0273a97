-- ===== src/Ledger/Operations.antt =====
-- The calls that the API makes on the ledger, and histories of them.
use opentheory.Base.{ℕ, ◌≡◌, refl, Option, List, [], ◌∷◌}
use opentheory.Base.Http.{Result, ok, err}
use opentheory.Base.Text.{Text}
use opentheory.Ledger.Store.{Actor, Db}
use opentheory.Ledger.Checkpoints.{CheckpointCreate, Extras, create_checkpoint}
use opentheory.Ledger.Branches.{BranchCreate, create_branch, CloseOutcome, close_branch}
use opentheory.Ledger.Merges.{MergeCreate, merge_branches}
use opentheory.Ledger.Tags.{TagCreate, create_tag}
use opentheory.Ledger.Advance.{Advance}
use opentheory.Ledger.Steps.{IdsUsed, direct-Advance, create_branch-Advance, close_branch-Advance}
use opentheory.Ledger.Steps.Merging.{merge_branches-Advance}
use opentheory.Ledger.Steps.Tagging.{create_tag-Advance}

pub data Op : Type 0 where
  record_checkpoint : ℕ → CheckpointCreate → Extras → Op
  fork : ℕ → BranchCreate → Op
  close : ℕ → CloseOutcome → Option Text → Op
  merge : ℕ → MergeCreate → Op
  tag : ℕ → TagCreate → Op

abbrev pub db_of {ℓ} : {A : Type ℓ} → Result (A × Db) → Result Db
db_of (ok (a, db)) = ok db
db_of (err e) = err e

abbrev pub perform : Db → Actor → Op → Result Db
perform db actor (record_checkpoint project payload extras) =
    db_of (create_checkpoint db project payload actor extras)
perform db actor (fork project payload) = db_of (create_branch db project payload actor)
perform db actor (close branch outcome reason) = db_of (close_branch db branch outcome reason actor)
perform db actor (merge project payload) = db_of (merge_branches db project payload actor)
perform db actor (tag project payload) = db_of (create_tag db project payload actor)

-- A call that raises commits nothing.
abbrev pub commit : Db → Result Db → Db
commit db (ok db') = db'
commit db (err e) = db

abbrev pub run : Db → List (Actor × Op) → Db
run db [] = db
run db ((actor, op) ∷ ops) = run (commit db (perform db actor op)) ops

db_of_ok {ℓ} :
    {A : Type ℓ} (r : Result (A × Db)) {db : Db} → db_of r ≡ ok db → (a : A) × (r ≡ ok (a, db))
db_of_ok (ok (a, db')) h = (a, cc)
db_of_ok (err e) h = cc

pub perform-Advance :
    (db : Db) (actor : Actor) (op : Op) {db' : Db}
    → IdsUsed db
    → perform db actor op ≡ ok db'
    → Advance db db'
perform-Advance db actor (record_checkpoint project payload extras) used h =
    direct-Advance db project payload actor extras (db_of_ok _ h).1
perform-Advance db actor (fork project payload) used h =
    create_branch-Advance db project payload actor used (db_of_ok _ h).1
perform-Advance db actor (close branch outcome reason) used h =
    close_branch-Advance db branch outcome reason actor (db_of_ok _ h).1
perform-Advance db actor (merge project payload) used h =
    merge_branches-Advance db project payload actor (db_of_ok _ h).1
perform-Advance db actor (tag project payload) used h =
    create_tag-Advance db project payload actor (db_of_ok _ h).1

-- A property of two databases that holds of one with itself, and along an advance, holds of a
-- database and what a history makes of it, given an invariant that advances keep.
module _ (Inv : Db → Type 0) (Rel : Db → Db → Type 0) (inv_used : (db : Db) → Inv db → IdsUsed db)
    (inv_step : (db db' : Db) → Inv db → Advance db db' → Inv db')
    (rel_stays : (db : Db) → Rel db db)
    (rel_step : (db db' last : Db) → Inv db → Advance db db' → Rel db' last → Rel db last) where
  commit_step :
      (db : Db) (actor : Actor) (op : Op) (r : Result Db)
      → Inv db
      → perform db actor op ≡ r
      → Inv (commit db r) × ((last : Db) → Rel (commit db r) last → Rel db last)
  commit_step db actor op (err e) inv h = (inv, λ last rel. rel)
  commit_step db actor op (ok db') inv h =
      let step = perform-Advance db actor op (inv_used db inv) h in
      (inv_step db db' inv step, λ last. rel_step db db' last inv step)

  pub run_induction :
      (db : Db) (ops : List (Actor × Op)) → Inv db → Inv (run db ops) × Rel db (run db ops)
  run_induction db [] inv = (inv, rel_stays db)
  run_induction db ((actor, op) ∷ ops) inv =
      let step = commit_step db actor op (perform db actor op) inv refl in
      let rest = run_induction (commit db (perform db actor op)) ops step.0 in
      (rest.0, step.1 (run (commit db (perform db actor op)) ops) rest.1)
