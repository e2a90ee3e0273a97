-- ===== src/Ledger/Outcomes/Creating.antt =====
-- When a checkpoint can be created, and the rows that it leaves (checkpoints.py).
use opentheory.Base.{ℕ, ◌+◌, ◌≡◌, ◌≢◌, ◌↔◌, none, some, List, ◌∷◌, ◌++◌, map, All, In}
use opentheory.Ledger.Store.{
  agent, Actor, open_line, Branch, Checkpoint, RefInput, CheckpointRef, Contribution, Db, owner,
  find_branch, find_checkpoint,
}
use opentheory.Ledger.Checkpoints.{CheckpointCreate, Extras, ref_owner}
use opentheory.Ledger.Outcomes.Heads.{Distinct}

-- What a new checkpoint asks for, in the rows of the database.
pub record Requested (db : Db) (project : ℕ) (payload : CheckpointCreate) : Type 0 where
  pub project_there : In project db.projects
  pub thread_there :
      (thread : ℕ) → payload.thread_id ≡ some thread → owner thread db.threads ≡ some project
  pub line_there :
      (line : ℕ)
      → payload.branch_id ≡ some line
      → (row : Branch) × (find_branch line db.branches ≡ some row)
        × (row.project_id ≡ project)
        × (row.status ≡ open_line)
  pub parents_there :
      (id : ℕ)
      → In id payload.parent_ids
      → (row : Checkpoint) × (find_checkpoint id db.checkpoints ≡ some row)
        × (row.project_id ≡ project)
  pub refs_there :
      (ref : RefInput)
      → In ref payload.refs
      → ref_owner db ref.target_type ref.target_id ≡ some (some project)

-- What a call that succeeds leaves: the new row, with the distinct ids of the client's parents, one
-- contribution for it and one reference row for each given; every other row stays.
pub record Created (db : Db) (project : ℕ) (payload : CheckpointCreate) (actor : Actor)
    (extras : Extras) (row : Checkpoint) (after : Db) : Type 0 where
  pub fresh : row.id ≡ db.next_id
  pub placed :
      (row.project_id ≡ project)
      × (row.thread_id ≡ payload.thread_id)
      × (row.branch_id ≡ payload.branch_id)
  pub authored :
      (row.author_id ≡ actor.id) × (actor.type ≢ agent → row.sponsored_by_actor_id ≡ none)
  pub kept : (row.summary ≡ payload.summary) × (row.content ≡ payload.content)
  pub parents_distinct : Distinct row.parents
  pub parents_given : (id : ℕ) → In id row.parents ↔ In id payload.parent_ids
  pub added : after.checkpoints ≡ row ∷ db.checkpoints
  pub credited :
      (credit : Contribution) × (after.contributions ≡ credit ∷ db.contributions)
      × (credit.checkpoint_id ≡ row.id)
      × (credit.actor_id ≡ actor.id)
      × (credit.project_id ≡ project)
  pub stamped :
      (new : List CheckpointRef) × (after.refs ≡ new ++ db.refs)
      × (map (λ (ref : CheckpointRef). ref.target) new ≡ payload.refs ++ extras.extra_refs)
      × All (λ (ref : CheckpointRef). ref.checkpoint_id ≡ row.id) new
  pub others_stay : after ≡ record db {
    checkpoints = after.checkpoints;
    refs = after.refs;
    contributions = after.contributions;
    next_id = db.next_id + 1;
  }
