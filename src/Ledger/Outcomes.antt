-- ===== src/Ledger/Outcomes.antt =====
-- When a line can be closed or forked, and what the two operations of branches.py leave behind.
use opentheory.Base.{
  ℕ, ◌-◌, ◌≡◌, refl, sym, ap, ◌∙◌, ◌↔◌, true, Option, none, some, [], ◌∷◌, ◌==◌, ==_refl, In, dedup,
}
use opentheory.Base.Http.{ok}
use mathlib.Core.Path.{subst}
use opentheory.Base.Text.{Text}
use opentheory.Ledger.Store.{
  Actor, open_line, is_open, Branch, Checkpoint, Db, find_branch, set_status,
}
use opentheory.Ledger.Checkpoints.{
  CheckpointCreate, Extras, check_project, check_thread, checkpoint_owner, write_checkpoint,
  create_checkpoint,
}
use opentheory.Ledger.Branches.{
  no_extras, BranchCreate, new_branch, with_branch, fork_checkpoint, branch_ref, create_branch,
  CloseOutcome, close_status, close_checkpoint, closed_ref, close_branch,
}
use opentheory.Ledger.Chokepoint.{Accepts, create_checkpoint_ok, create_checkpoint_of_Accepts}
use opentheory.Ledger.Sealing.{restatus, find_set_status_same}
use opentheory.Ledger.Steps.{create_branch_checks, close_branch_checks}
use opentheory.Ledger.Validity.{IsValid}
pub mod Heads
pub mod Creating
pub mod Merging
pub mod Tagging

-- The row a call returned, and the branches that the call left, by what the chokepoint wrote.
pub written_row :
    (base : Db) (project : ℕ) (payload : CheckpointCreate) (actor : Actor) (extras : Extras)
    {result : Checkpoint × Db}
    → create_checkpoint base project payload actor extras ≡ ok result
    → (result.0.parents ≡ dedup [] payload.parent_ids)
      × (result.0.branch_id ≡ payload.branch_id)
      × (result.0.id ≡ base.next_id)
      × (result.1.branches ≡ base.branches)
      × (result.1.checkpoints ≡ result.0 ∷ base.checkpoints)
unfolding write_checkpoint
written_row base project payload actor extras h =
    let same = (create_checkpoint_ok base project payload actor extras h).1 in
    (
      sym (ap (λ (r : Checkpoint × Db). r.0.parents) same),
      sym (ap (λ (r : Checkpoint × Db). r.0.branch_id) same),
      sym (ap (λ (r : Checkpoint × Db). r.0.id) same),
      sym (ap (λ (r : Checkpoint × Db). r.1.branches) same),
      subst (λ (r : Checkpoint × Db). r.1.checkpoints ≡ r.0 ∷ base.checkpoints) same refl,
    )

module _ (db : Db) (b : ℕ) (outcome : CloseOutcome) (reason : Option Text) (actor : Actor) where
  close_of_open :
      (row : Branch)
      → IsValid db
      → find_branch b db.branches ≡ some row
      → is_open row.status ≡ true
      → (result : Branch × Db) × (close_branch db b outcome reason actor ≡ ok result)
  unfolding close_branch
  close_of_open row valid found now =
      let flipped : Db = record db { branches = set_status b (close_status outcome) db.branches } in
      let known = valid.branches_known b row found in
      let accepts : Accepts flipped row.project_id (close_checkpoint row outcome reason) = record {
        project_known = known.0;
        thread_known = thread row.thread_id known.1;
        line_open = refl;
        parents_known = tt;
        refs_known = tt;
      } in
      let extras = record (no_extras (closed_ref b ∷ [])) {
        contribution_action = some "close_branch";
      } in
      let payload = close_checkpoint row outcome reason in
      let call = create_checkpoint_of_Accepts flipped row.project_id payload actor extras accepts in
      let written = write_checkpoint flipped row.project_id payload actor extras [] in
      ((record row { status = close_status outcome }, written.1), rw (found, now, call) refl)
    where
      thread :
          (t : Option ℕ)
          → check_thread db row.project_id t ≡ ok tt
          → check_thread
              (record db { branches = set_status b (close_status outcome) db.branches })
              row.project_id
              t
            ≡ ok tt
      thread none h = h
      thread (some t) h = h

  -- In a valid ledger a branch can be closed exactly when there is such a branch and it is open.
  pub close_branch_iff :
      IsValid db
      → ((result : Branch × Db) × (close_branch db b outcome reason actor ≡ ok result))
        ↔ ((row : Branch) × (find_branch b db.branches ≡ some row) × (is_open row.status ≡ true))
  close_branch_iff valid = (
    (λ (result, h).
        (let checks = close_branch_checks db b outcome reason actor h in
          (checks.0, checks.1, checks.2))),
    λ (row, found, now). close_of_open row valid found now,
  )

  -- A close that succeeds leaves the branch row it returns under the id, with the outcome's status,
  -- and one new checkpoint, on the main line.
  pub close_branch_seals :
      {result : Branch × Db}
      → close_branch db b outcome reason actor ≡ ok result
      → (find_branch b result.1.branches ≡ some result.0)
        × (result.0.status ≡ close_status outcome)
        × ((row : Checkpoint) × (result.1.checkpoints ≡ row ∷ db.checkpoints)
            × (row.branch_id ≡ none))
  close_branch_seals {result} h =
      let checks = close_branch_checks db b outcome reason actor h in
      let call = checks.3 in
      let row = written_row _ checks.0.project_id _ actor _ call.1 in
      subst
        (λ (r : Branch × Db).
          (find_branch b r.1.branches ≡ some r.0)
          × (r.0.status ≡ close_status outcome)
          × ((c : Checkpoint) × (r.1.checkpoints ≡ c ∷ db.checkpoints) × (c.branch_id ≡ none)))
        call.2
        (
          ap (find_branch b) row.3
              ∙ (find_set_status_same b (close_status outcome) db.branches
                  ∙ ap (restatus (close_status outcome)) checks.1),
          refl,
          (call.0.0, row.4, row.1),
        )

module _ (db : Db) (project : ℕ) (payload : BranchCreate) (actor : Actor) where
  fork_accepted :
      check_project db project ≡ ok tt
      → checkpoint_owner db payload.from_checkpoint_id ≡ some project
      → check_thread db project payload.thread_id ≡ ok tt
      → Accepts
          (with_branch db (new_branch db project payload))
          project
          (fork_checkpoint (new_branch db project payload) payload)
  fork_accepted known from thread = record {
    project_known = known;
    thread_known = thread_too payload.thread_id thread;
    line_open = rw (==_refl db.next_id, ==_refl project) refl;
    parents_known = (from, tt);
    refs_known = tt;
  }
    where
      thread_too :
          (t : Option ℕ)
          → check_thread db project t ≡ ok tt
          → check_thread (with_branch db (new_branch db project payload)) project t ≡ ok tt
      thread_too none h = h
      thread_too (some t) h = h

  fork_of_known :
      check_project db project ≡ ok tt
      → checkpoint_owner db payload.from_checkpoint_id ≡ some project
      → check_thread db project payload.thread_id ≡ ok tt
      → (result : Branch × Db) × (create_branch db project payload actor ≡ ok result)
  unfolding create_branch
  fork_of_known known from thread =
      let branch = new_branch db project payload in
      let base = with_branch db branch in
      let extras = record (no_extras (branch_ref db.next_id ∷ [])) {
        contribution_action = some "create_branch";
      } in
      let sent = fork_checkpoint branch payload in
      let call =
        create_checkpoint_of_Accepts base project sent actor extras
          (fork_accepted known from thread) in
      let written =
        write_checkpoint base project sent actor extras (payload.from_checkpoint_id ∷ []) in
      ((branch, written.1), rw (known, from, ==_refl project, thread, call) refl)

  -- A fork succeeds exactly when the project exists and the checkpoint and the thread, if one is
  -- given, are rows of it.
  pub create_branch_iff :
      ((result : Branch × Db) × (create_branch db project payload actor ≡ ok result)) ↔ (
        (check_project db project ≡ ok tt)
        × (checkpoint_owner db payload.from_checkpoint_id ≡ some project)
        × (check_thread db project payload.thread_id ≡ ok tt))
  create_branch_iff = (
    (λ (result, h).
        (let checks = create_branch_checks db project payload actor h in
          (checks.0, checks.1, checks.2))),
    λ (known, from, thread). fork_of_known known from thread,
  )

  -- A fork that succeeds leaves an open branch of the project under the id it returns, and its first
  -- checkpoint, which stands on the new line and has the fork point as its one parent.
  pub create_branch_opens :
      {result : Branch × Db}
      → create_branch db project payload actor ≡ ok result
      → (find_branch result.0.id result.1.branches ≡ some result.0)
        × (result.0.status ≡ open_line)
        × (result.0.project_id ≡ project)
        × ((row : Checkpoint) × (result.1.checkpoints ≡ row ∷ db.checkpoints)
            × (row.branch_id ≡ some result.0.id)
            × (row.parents ≡ payload.from_checkpoint_id ∷ []))
  create_branch_opens {result} h =
      let call = (create_branch_checks db project payload actor h).3 in
      let row = written_row _ project _ actor _ call.1 in
      subst
        (λ (r : Branch × Db).
          (find_branch r.0.id r.1.branches ≡ some r.0)
          × (r.0.status ≡ open_line)
          × (r.0.project_id ≡ project)
          × ((c : Checkpoint) × (r.1.checkpoints ≡ c ∷ db.checkpoints)
              × (c.branch_id ≡ some r.0.id)
              × (c.parents ≡ payload.from_checkpoint_id ∷ [])))
        call.2
        (
          ap (find_branch db.next_id) row.3 ∙ rw (==_refl db.next_id) refl,
          refl,
          refl,
          (call.0.0, row.4, row.1, row.0),
        )
