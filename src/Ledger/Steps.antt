-- ===== src/Ledger/Steps.antt =====
-- The forks and closings of branches.py against the contract of a ledger operation, and what the
-- other operations share with them.
use opentheory.Base.{
  ℕ, ◌+◌, ◌-◌, ◌<◌, ◌≡◌, refl, sym, ap, ◌∙◌, ◌≢◌, inl, inr, Bool, true, false, not, Option, none,
  some, List, [], ◌∷◌, arith, ◌==◌, ==_iff, Bool-cases, Option-cases,
}
use opentheory.Base.Http.{
  bad_request, not_found, ok, raise_if, or_raise, bind_ok, or_raise_ok, raise_if_ok,
}
use mathlib.Core.Path.{subst}
use opentheory.Base.Text.{Text}
use opentheory.Ledger.Store.{Actor, is_open, Branch, Checkpoint, Db, find_branch, set_status}
use opentheory.Ledger.Checkpoints.{
  CheckpointCreate, Extras, in_project, check_project, check_thread, checkpoint_owner,
  create_checkpoint,
}
use opentheory.Ledger.Branches.{
  no_extras, BranchCreate, new_branch, with_branch, fork_checkpoint, branch_ref, create_branch,
  CloseOutcome, close_status, close_checkpoint, closed_ref, close_branch,
}
use opentheory.Ledger.Chokepoint.{ok-injective, in_project_ok}
use opentheory.Ledger.Advance.{BranchStep, Advance, Prepared, create_checkpoint-Advance}
use opentheory.Ledger.Sealing.{seal-Prepared, branch_stays}
pub mod Merging
pub mod Tagging

-- Every branch id was taken from the counter.
abbrev pub IdsUsed : Db → Type 0
IdsUsed db = (id : ℕ) → find_branch id db.branches ≢ none → id < db.next_id

pub not-false : (b : Bool) → not b ≡ false → b ≡ true
not-false true h = refl
not-false false h = cc

pub find_branch_id :
    (id : ℕ) (rows : List Branch) {b : Branch} → find_branch id rows ≡ some b → b.id ≡ id
find_branch_id id [] h = cc
find_branch_id id (row ∷ rows) {b} h = elim (Bool-cases (row.id == id)) [
  | inl here ↦
      let e : some row ≡ some b = rw here at h in
      let same : row ≡ b = cc in sym (ap (λ (r : Branch). r.id) same) ∙ (==_iff row.id id).0 here
  | inr there ↦ find_branch_id id rows (rw there at h)
]

unchanged-Prepared : (db : Db) → Prepared db db
unchanged-Prepared db = record {
  same_checkpoints = refl;
  same_refs = refl;
  same_contributions = refl;
  same_projects = refl;
  same_threads = refl;
  next_grows = omega arith;
  branches_step = λ id. branch_stays db (find_branch id db.branches);
  branches_used = λ id new old. elim (new old) [ ];
  tags_grow = ([], refl);
}

pub direct-Advance :
    (db : Db) (project : ℕ) (payload : CheckpointCreate) (actor : Actor) (extras : Extras)
    {result : Checkpoint × Db}
    → create_checkpoint db project payload actor extras ≡ ok result
    → Advance db result.1
direct-Advance db project payload actor extras h =
    create_checkpoint-Advance db db project payload actor extras (unchanged-Prepared db) h

-- The steps of `create_branch` that passed.
module _ (db : Db) (project : ℕ) (payload : BranchCreate) (actor : Actor) {result : Branch × Db}
    (h : create_branch db project payload actor ≡ ok result) where
  pub create_branch_checks :
      (check_project db project ≡ ok tt)
      × (checkpoint_owner db payload.from_checkpoint_id ≡ some project)
      × (check_thread db project payload.thread_id ≡ ok tt)
      × ((written : Checkpoint × Db) × (create_checkpoint
              (with_branch db (new_branch db project payload))
              project
              (fork_checkpoint (new_branch db project payload) payload)
              actor
              (record (no_extras (branch_ref db.next_id ∷ [])) {
                contribution_action = some "create_branch";
              })
            ≡ ok written)
          × ((new_branch db project payload, written.1) ≡ result))
  unfolding create_branch
  create_branch_checks =
      let c1 = bind_ok (check_project db project) _ h in
      let c2 =
        bind_ok (in_project project (checkpoint_owner db payload.from_checkpoint_id)) _ c1.2 in
      let c3 = bind_ok (check_thread db project payload.thread_id) _ c2.2 in
      let c4 = bind_ok (create_checkpoint _ project _ actor _) _ c3.2 in
      (c1.1, in_project_ok project _ c2.1, c3.1, (c4.0, c4.1, ok-injective c4.2))

new_branch-Prepared :
    (db : Db) (project : ℕ) (payload : BranchCreate)
    → IdsUsed db
    → check_project db project ≡ ok tt
    → check_thread db project payload.thread_id ≡ ok tt
    → Prepared db (with_branch db (new_branch db project payload))
new_branch-Prepared db project payload used known thread = record {
  same_checkpoints = refl;
  same_refs = refl;
  same_contributions = refl;
  same_projects = refl;
  same_threads = refl;
  next_grows = omega arith;
  branches_step = step;
  branches_used = fresh;
  tags_grow = ([], refl);
}
  where
    unused : (id : ℕ) → (db.next_id == id) ≡ true → find_branch id db.branches ≡ none
    unused id here = elim (Option-cases (find_branch id db.branches)) [
      | inl e ↦ e
      | inr (row, e) ↦
          let old : id < db.next_id =
            used id (λ n. (let bad : none ≡ some row = sym n ∙ e in cc)) in
          let same : db.next_id ≡ id = (==_iff db.next_id id).0 here in
          (let bad : ⊥ = omega arith in elim bad [ ])
    ]

    step :
        (id : ℕ)
        → BranchStep db
            (find_branch id db.branches)
            (find_branch id (new_branch db project payload ∷ db.branches))
    step id = elim (Bool-cases (db.next_id == id)) [
      | inl here ↦ rw here (
          subst (λ o. BranchStep db o (some (new_branch db project payload))) (sym (unused id here))
            (refl, known, thread))
      | inr there ↦ rw there (branch_stays db (find_branch id db.branches))
    ]

    fresh :
        (id : ℕ)
        → find_branch id (new_branch db project payload ∷ db.branches) ≢ none
        → find_branch id db.branches ≡ none
        → id < db.next_id + 1
    fresh id new old = elim (Bool-cases (db.next_id == id)) [
      | inl here ↦ (let same : db.next_id ≡ id = (==_iff db.next_id id).0 here in omega arith)
      | inr there ↦ elim (new (rw there old)) [ ]
    ]

pub create_branch-Advance :
    (db : Db) (project : ℕ) (payload : BranchCreate) (actor : Actor) {result : Branch × Db}
    → IdsUsed db
    → create_branch db project payload actor ≡ ok result
    → Advance db result.1
create_branch-Advance db project payload actor used h =
    let checks = create_branch_checks db project payload actor h in
    let call = checks.3 in
    subst (λ (r : Branch × Db). Advance db r.1) call.2
      (create_checkpoint-Advance db _ project _ actor _
        (new_branch-Prepared db project payload used checks.0 checks.2) call.1)

close_status-sealed : (outcome : CloseOutcome) → is_open (close_status outcome) ≡ false
close_status-sealed CloseOutcome.abandoned = refl
close_status-sealed CloseOutcome.superseded = refl

-- The steps of `close_branch` that passed.
pub close_branch_checks :
    (db : Db) (b : ℕ) (outcome : CloseOutcome) (reason : Option Text) (actor : Actor)
    {result : Branch × Db}
    → close_branch db b outcome reason actor ≡ ok result
    → (branch : Branch) × (find_branch b db.branches ≡ some branch)
      × (is_open branch.status ≡ true)
      × ((written : Checkpoint × Db) × (create_checkpoint
              (record db { branches = set_status b (close_status outcome) db.branches })
              branch.project_id
              (close_checkpoint branch outcome reason)
              actor
              (record (no_extras (closed_ref b ∷ [])) { contribution_action = some "close_branch" })
            ≡ ok written)
          × ((record branch { status = close_status outcome }, written.1) ≡ result))
unfolding close_branch
close_branch_checks db b outcome reason actor h =
    let c1 = bind_ok (or_raise (find_branch b db.branches) not_found) _ h in
    let c2 = bind_ok (raise_if (not (is_open c1.0.status)) bad_request) _ c1.2 in
    let c3 = bind_ok (create_checkpoint _ c1.0.project_id _ actor _) _ c2.2 in
    (
      c1.0,
      or_raise_ok _ not_found c1.1,
      not-false _ (raise_if_ok _ bad_request c2.1),
      (c3.0, c3.1, ok-injective c3.2),
    )

pub close_branch-Advance :
    (db : Db) (b : ℕ) (outcome : CloseOutcome) (reason : Option Text) (actor : Actor)
    {result : Branch × Db}
    → close_branch db b outcome reason actor ≡ ok result
    → Advance db result.1
close_branch-Advance db b outcome reason actor h =
    let checks = close_branch_checks db b outcome reason actor h in
    let call = checks.3 in
    subst (λ (r : Branch × Db). Advance db r.1) call.2
      (create_checkpoint-Advance db _ checks.0.project_id _ actor _
        (seal-Prepared db b (close_status outcome) checks.0 checks.1 checks.2
          (close_status-sealed outcome))
        call.1)
