-- ===== src/Ledger/Advance.antt =====
-- The contract of a ledger operation: one new checkpoint over rows that stay as they are, and branch
-- rows of which only an open one may change, and only by being sealed.
use opentheory.Base.{
  ℕ, ◌≤◌, ◌<◌, ◌≡◌, refl, sym, ap, ◌∙◌, ◌≢◌, ◌⊎◌, true, false, Option, none, some, List, [], ◌∷◌,
  ◌++◌, arith, dedup,
}
use opentheory.Base.Http.{ok}
use mathlib.Core.Path.{subst}
use opentheory.Ledger.Store.{
  Actor, open_line, is_open, Branch, Checkpoint, CheckpointRef, Contribution, RefInput, Db,
  find_branch,
}
use opentheory.Ledger.Checkpoints.{
  action_or, CheckpointCreate, Extras, check_project, check_thread, check_branch, checkpoint_owner,
  stamp, write_checkpoint, create_checkpoint,
}
use opentheory.Ledger.Chokepoint.{Known, Accepts, create_checkpoint_ok}

-- What may become of the branch row with one id.
abbrev pub BranchStep : Db → Option Branch → Option Branch → Type 0
BranchStep db none none = Unit
BranchStep db none (some new) =
    (new.status ≡ open_line)
    × (check_project db new.project_id ≡ ok tt)
    × (check_thread db new.project_id new.thread_id ≡ ok tt)
BranchStep db (some old) none = ⊥
BranchStep db (some old) (some new) =
    (new ≡ old)
    ⊎ ((is_open old.status ≡ true)
        × (is_open new.status ≡ false)
        × (new ≡ record old { status = new.status }))

-- `new` rows in front of the old ones.
abbrev pub Grows : {A : Type 0} → List A → List A → Type 0
Grows {A} old now = (new : List A) × (now ≡ new ++ old)

pub record Advance (db db' : Db) : Type 0 where
  pub row : Checkpoint
  pub written : db'.checkpoints ≡ row ∷ db.checkpoints
  pub id_fresh : db.next_id ≤ row.id
  pub id_used : row.id < db'.next_id
  pub parents_known : Known (checkpoint_owner db) row.project_id row.parents
  pub project_known : check_project db row.project_id ≡ ok tt
  pub thread_known : check_thread db row.project_id row.thread_id ≡ ok tt
  pub line_open : check_branch db' row.project_id row.branch_id ≡ ok tt
  pub same_projects : db'.projects ≡ db.projects
  pub same_threads : db'.threads ≡ db.threads
  pub branches_step :
      (id : ℕ) → BranchStep db (find_branch id db.branches) (find_branch id db'.branches)
  pub branches_used :
      (id : ℕ)
      → find_branch id db'.branches ≢ none
      → find_branch id db.branches ≡ none
      → id < db'.next_id
  pub credit : Contribution
  pub credited : db'.contributions ≡ credit ∷ db.contributions
  pub credit_row : (credit.checkpoint_id ≡ row.id) × (credit.project_id ≡ row.project_id)
  pub refs_grow : Grows db.refs db'.refs
  pub tags_grow : Grows db.tags db'.tags

-- What an operation may change before it calls the chokepoint.
pub record Prepared (db base : Db) : Type 0 where
  pub same_checkpoints : base.checkpoints ≡ db.checkpoints
  pub same_refs : base.refs ≡ db.refs
  pub same_contributions : base.contributions ≡ db.contributions
  pub same_projects : base.projects ≡ db.projects
  pub same_threads : base.threads ≡ db.threads
  pub next_grows : db.next_id ≤ base.next_id
  pub branches_step :
      (id : ℕ) → BranchStep db (find_branch id db.branches) (find_branch id base.branches)
  pub branches_used :
      (id : ℕ)
      → find_branch id base.branches ≢ none
      → find_branch id db.branches ≡ none
      → id < base.next_id
  pub tags_grow : Grows db.tags base.tags

stamp-Grows :
    (id : ℕ) (refs : List RefInput) (rows : List CheckpointRef) → Grows rows (stamp id refs rows)
stamp-Grows id [] rows = ([], refl)
stamp-Grows id (ref ∷ refs) rows =
    let rest = stamp-Grows id refs rows in
    (
      record { checkpoint_id = id; target = ref } ∷ rest.0,
      ap (λ rs. record { checkpoint_id = id; target = ref } ∷ rs) rest.1,
    )

check_project_same :
    (base db : Db) (p : ℕ) → base.projects ≡ db.projects → check_project base p ≡ check_project db p
check_project_same base db p e = rw e

check_thread_same :
    (base db : Db) (p : ℕ) (thread : Option ℕ)
    → base.threads ≡ db.threads
    → check_thread base p thread ≡ check_thread db p thread
check_thread_same base db p none e = refl
check_thread_same base db p (some thread) e = rw e

checkpoint_owner_same :
    (base db : Db) (id : ℕ)
    → base.checkpoints ≡ db.checkpoints
    → checkpoint_owner base id ≡ checkpoint_owner db id
checkpoint_owner_same base db id e = rw e

Known-same :
    (base db : Db) (p : ℕ) (ids : List ℕ)
    → base.checkpoints ≡ db.checkpoints
    → Known (checkpoint_owner base) p ids
    → Known (checkpoint_owner db) p ids
Known-same base db p [] e h = tt
Known-same base db p (id ∷ ids) e h =
    (sym (checkpoint_owner_same base db id e) ∙ h.0, Known-same base db p ids e h.1)

write-Advance :
    (db base : Db) (project : ℕ) (payload : CheckpointCreate) (actor : Actor) (extras : Extras)
    → Prepared db base
    → Accepts base project payload
    → Advance db
        (write_checkpoint base project payload actor extras (dedup [] payload.parent_ids)).1
unfolding write_checkpoint
write-Advance db base project payload actor extras prep acc =
    let made = write_checkpoint base project payload actor extras (dedup [] payload.parent_ids) in
    let stamped = stamp-Grows base.next_id (payload.refs ++ extras.extra_refs) base.refs in
    let credit : Contribution = record {
      project_id = project;
      actor_id = actor.id;
      checkpoint_id = base.next_id;
      action = action_or extras.contribution_action;
      target_type = "checkpoint";
      target_id = base.next_id;
    } in
    record {
      row = made.0;
      written = ap (λ rows. made.0 ∷ rows) prep.same_checkpoints;
      id_fresh = prep.next_grows;
      id_used = omega arith;
      parents_known = Known-same base db project _ prep.same_checkpoints acc.parents_known;
      project_known =
          sym (check_project_same base db project prep.same_projects) ∙ acc.project_known;
      thread_known =
          sym (check_thread_same base db project payload.thread_id prep.same_threads)
          ∙ acc.thread_known;
      line_open = branch_same payload.branch_id acc.line_open;
      same_projects = prep.same_projects;
      same_threads = prep.same_threads;
      branches_step = prep.branches_step;
      branches_used = λ id new old. (let used = prep.branches_used id new old in omega arith);
      credit = credit;
      credited = ap (λ rows. credit ∷ rows) prep.same_contributions;
      credit_row = (refl, refl);
      refs_grow = (stamped.0, stamped.1 ∙ ap (λ rows. stamped.0 ++ rows) prep.same_refs);
      tags_grow = prep.tags_grow;
    }
  where
    branch_same :
        (line : Option ℕ)
        → check_branch base project line ≡ ok tt
        → check_branch
            (write_checkpoint base project payload actor extras (dedup [] payload.parent_ids)).1
            project
            line
          ≡ ok tt
    branch_same none e = refl
    branch_same (some b) e = e

-- A call of the chokepoint on prepared rows advances the ledger.
pub create_checkpoint-Advance :
    (db base : Db) (project : ℕ) (payload : CheckpointCreate) (actor : Actor) (extras : Extras)
    {result : Checkpoint × Db}
    → Prepared db base
    → create_checkpoint base project payload actor extras ≡ ok result
    → Advance db result.1
create_checkpoint-Advance db base project payload actor extras {result} prep h =
    let done = create_checkpoint_ok base project payload actor extras h in
    subst (λ (r : Checkpoint × Db). Advance db r.1) done.1
      (write-Advance db base project payload actor extras prep done.0)
