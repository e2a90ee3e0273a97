-- ===== src/Ledger/Store.antt =====
-- The rows of the ledger (backend/app/models) and the reads that the services make of them.
-- A session is a value: a call that raises leaves the caller with the rows it began with, since
-- every service commits once, at its end. Lists of rows are newest first, the order of
-- `created_at.desc()`; ids come from a counter, since a fresh UUID is one that no row has.
use opentheory.Base.{ℕ, Bool, true, false, Option, none, some, List, [], ◌∷◌, ◌==◌, if◌then◌else◌}
use Prim.Native.String.{String}
use opentheory.Base.Text.{Text}

pub data ActorType : Type 0 where
  human agent system : ActorType

-- The acting principal; `sponsored_by` is what `sponsored_by_of` reads off an agent's session.
pub record Actor : Type 0 where
  pub id : ℕ
  pub type : ActorType
  pub sponsored_by : Option ℕ

pub data BranchStatus : Type 0 where
  open_line merged closed dead_end : BranchStatus

abbrev pub is_open : BranchStatus → Bool
is_open open_line = true
is_open _ = false

-- A row of which only the id and the project matter: thread, claim, evidence, artifact, validation.
pub record Owned : Type 0 where
  pub id : ℕ
  pub project_id : ℕ

pub record Branch : Type 0 where
  pub id : ℕ
  pub project_id : ℕ
  pub thread_id : Option ℕ
  pub forked_from_checkpoint_id : Option ℕ
  pub name : Text
  pub reason : Option Text
  pub status : BranchStatus

pub data TagKind : Type 0 where
  milestone validated retraction : TagKind

pub data MergeResolution : Type 0 where
  clean resolved : MergeResolution

-- The JSON of a checkpoint: what a client sent, or what one of the services puts there.
pub data Content : Type 0 where
  authored : Text → Content
  forked : ℕ → ℕ → Option Text → Content
  ended : ℕ → BranchStatus → Option Text → Content
  synthesized : MergeResolution → Option Text → List ℕ → Option ℕ → List ℕ → Content
  pinned : ℕ → Text → TagKind → ℕ → Content

pub record Checkpoint : Type 0 where
  pub id : ℕ
  pub project_id : ℕ
  pub thread_id : Option ℕ
  pub branch_id : Option ℕ
  pub author_id : ℕ
  pub sponsored_by_actor_id : Option ℕ
  pub stage : Option String
  pub summary : Text
  pub content : Content
  pub notes : Option Text
  pub tool_invocations : List Text
  pub parents : List ℕ

-- `CheckpointRefInput`: what a checkpoint acted on, and how.
pub record RefInput : Type 0 where
  pub target_type : String
  pub target_id : ℕ
  pub role : String

pub record CheckpointRef : Type 0 where
  pub checkpoint_id : ℕ
  pub target : RefInput

pub record Contribution : Type 0 where
  pub project_id : ℕ
  pub actor_id : ℕ
  pub checkpoint_id : ℕ
  pub action : String
  pub target_type : String
  pub target_id : ℕ

pub record Tag : Type 0 where
  pub id : ℕ
  pub project_id : ℕ
  pub checkpoint_id : ℕ
  pub author_id : ℕ
  pub name : Text
  pub kind : TagKind
  pub notes : Option Text

pub record Db : Type 0 where
  pub projects : List ℕ
  pub threads : List Owned
  pub claims : List Owned
  pub evidence : List Owned
  pub artifacts : List Owned
  pub validations : List Owned
  pub branches : List Branch
  pub checkpoints : List Checkpoint
  pub refs : List CheckpointRef
  pub contributions : List Contribution
  pub tags : List Tag
  pub next_id : ℕ

-- `db.get(Model, id)`, as the project that the row belongs to.
abbrev pub owner : ℕ → List Owned → Option ℕ
owner id [] = none
owner id (row ∷ rows) = if row.id == id then some row.project_id else owner id rows

abbrev pub find_branch : ℕ → List Branch → Option Branch
find_branch id [] = none
find_branch id (row ∷ rows) = if row.id == id then some row else find_branch id rows

abbrev pub find_checkpoint : ℕ → List Checkpoint → Option Checkpoint
find_checkpoint id [] = none
find_checkpoint id (row ∷ rows) = if row.id == id then some row else find_checkpoint id rows

abbrev pub tag_owner : ℕ → List Tag → Option ℕ
tag_owner id [] = none
tag_owner id (row ∷ rows) = if row.id == id then some row.project_id else tag_owner id rows

-- `branch.status = status` on the row with this id.
abbrev pub set_status : ℕ → BranchStatus → List Branch → List Branch
set_status id status [] = []
set_status id status (row ∷ rows) =
    if row.id == id then record row { status = status } ∷ rows else row ∷ set_status id status rows
