-- ===== src/Ledger/Validity.antt =====
-- The invariant of the ledger, and histories of calls.
use opentheory.Base.{
  ℕ, ◌≤◌, ◌<◌, ◌≡◌, refl, sym, ap, ◌∙◌, inl, inr, false, Option, none, some, List, [], ◌∷◌, map,
  arith, ◌==◌, ==_iff, Bool-cases, Option-cases,
}
use opentheory.Base.Http.{bad_request, ok, err}
use mathlib.Core.Path.{subst}
use opentheory.Ledger.Store.{
  Actor, Branch, Checkpoint, Contribution, Db, find_branch, find_checkpoint,
}
use opentheory.Ledger.Checkpoints.{
  check_project, check_thread, check_branch, branch_open, branch_owner, project_of,
}
use opentheory.Ledger.Chokepoint.{Known}
use opentheory.Ledger.Advance.{BranchStep, Advance}
use opentheory.Ledger.Steps.{IdsUsed}
use opentheory.Ledger.Operations.{Op, run, run_induction}

-- The branch that a row stands on belongs to the project; a row without one is on the main line.
abbrev pub LineKnown : Db → ℕ → Option ℕ → Type 0
LineKnown db project none = Unit
LineKnown db project (some b) = branch_owner (find_branch b db.branches) ≡ some project

-- The rows, newest first.
abbrev pub History : Db → List Checkpoint → Type 0
History db [] = Unit
History db (row ∷ older) =
    (row.id < db.next_id)
    × (find_checkpoint row.id older ≡ none)
    × Known (λ id. project_of (find_checkpoint id older)) row.project_id row.parents
    × (check_project db row.project_id ≡ ok tt)
    × (check_thread db row.project_id row.thread_id ≡ ok tt)
    × LineKnown db row.project_id row.branch_id
    × History db older

pub record IsValid (db : Db) : Type 0 where
  pub history : History db db.checkpoints
  pub ids_used : IdsUsed db
  pub branches_known :
      (id : ℕ) (b : Branch)
      → find_branch id db.branches ≡ some b
      → (check_project db b.project_id ≡ ok tt) × (check_thread db b.project_id b.thread_id ≡ ok tt)
  pub credits :
      map (λ (c : Contribution). c.checkpoint_id) db.contributions
      ≡ map (λ (row : Checkpoint). row.id) db.checkpoints

-- An id that the counter has not given names no row.
find_unused :
    (db : Db) (id : ℕ) (rows : List Checkpoint)
    → History db rows
    → db.next_id ≤ id
    → find_checkpoint id rows ≡ none
find_unused db id [] h fresh = refl
find_unused db id (row ∷ older) h fresh =
    let used : row.id < db.next_id = h.0 in
    let apart : (row.id == id) ≡ false = ground arith in
    rw apart (find_unused db id older h.6 fresh)

module _ (db db' : Db) (adv : Advance db db') where
  project_stays : (p : ℕ) → check_project db p ≡ ok tt → check_project db' p ≡ ok tt
  project_stays p h = rw adv.same_projects h

  thread_stays : (p : ℕ) (t : Option ℕ) → check_thread db p t ≡ ok tt → check_thread db' p t ≡ ok tt
  thread_stays p none h = refl
  thread_stays p (some t) h = rw adv.same_threads h

  owner_stays :
      (p : ℕ) (o o' : Option Branch)
      → BranchStep db o o'
      → branch_owner o ≡ some p
      → branch_owner o' ≡ some p
  owner_stays p none o' step h = cc
  owner_stays p (some old) none step h = elim step [ ]
  owner_stays p (some old) (some new) (inl same) h = ap (λ (b : Branch). some b.project_id) same ∙ h
  owner_stays p (some old) (some new) (inr sealed) h =
      ap (λ (b : Branch). some b.project_id) sealed.2 ∙ h

  line_stays : (p : ℕ) (line : Option ℕ) → LineKnown db p line → LineKnown db' p line
  line_stays p none h = tt
  line_stays p (some b) h =
      owner_stays p (find_branch b db.branches) (find_branch b db'.branches) (adv.branches_step b) h

  History-stays : (rows : List Checkpoint) → History db rows → History db' rows
  History-stays [] h = tt
  History-stays (row ∷ older) h =
      let used : row.id < db.next_id = h.0 in
      let low : db.next_id ≤ adv.row.id = adv.id_fresh in
      let high : adv.row.id < db'.next_id = adv.id_used in
      (
        omega arith,
        h.1,
        h.2,
        project_stays row.project_id h.3,
        thread_stays row.project_id row.thread_id h.4,
        line_stays row.project_id row.branch_id h.5,
        History-stays older h.6,
      )

  open-LineKnown :
      (p : ℕ) (line : Option ℕ) → check_branch db' p line ≡ ok tt → LineKnown db' p line
  open-LineKnown p none h = tt
  open-LineKnown p (some b) h = known (find_branch b db'.branches) h
    where
      known : (o : Option Branch) → branch_open p o ≡ ok tt → branch_owner o ≡ some p
      known none e = cc
      known (some row) e = elim (Bool-cases (row.project_id == p)) [
        | inl here ↦ ap some ((==_iff row.project_id p).0 here)
        | inr there ↦ (let bad : err bad_request ≡ ok tt = rw there at e in cc)
      ]

  History-Advance : History db db.checkpoints → History db' db'.checkpoints
  History-Advance h =
      subst (λ rows. History db' rows) (sym adv.written)
        (
          adv.id_used,
          find_unused db adv.row.id db.checkpoints h adv.id_fresh,
          adv.parents_known,
          project_stays adv.row.project_id adv.project_known,
          thread_stays adv.row.project_id adv.row.thread_id adv.thread_known,
          open-LineKnown adv.row.project_id adv.row.branch_id adv.line_open,
          History-stays db.checkpoints h,
        )

  IdsUsed-stays : IdsUsed db → IdsUsed db'
  IdsUsed-stays used id new = elim (Option-cases (find_branch id db.branches)) [
    | inl missing ↦ adv.branches_used id new missing
    | inr (row, found) ↦
        let old : id < db.next_id =
          used id (λ none_there. (let bad : none ≡ some row = sym none_there ∙ found in cc)) in
        let low : db.next_id ≤ adv.row.id = adv.id_fresh in
        let high : adv.row.id < db'.next_id = adv.id_used in omega arith
  ]

  known_after :
      (b : Branch) (o : Option Branch)
      → ((old : Branch)
          → o ≡ some old
          → (check_project db old.project_id ≡ ok tt)
            × (check_thread db old.project_id old.thread_id ≡ ok tt))
      → BranchStep db o (some b)
      → (check_project db b.project_id ≡ ok tt) × (check_thread db b.project_id b.thread_id ≡ ok tt)
  known_after b none before step = (step.1, step.2)
  known_after b (some old) before (inl same) =
      subst
        (λ (r : Branch).
          (check_project db r.project_id ≡ ok tt)
          × (check_thread db r.project_id r.thread_id ≡ ok tt))
        (sym same) (before old refl)
  known_after b (some old) before (inr sealed) =
      subst
        (λ (r : Branch).
          (check_project db r.project_id ≡ ok tt)
          × (check_thread db r.project_id r.thread_id ≡ ok tt))
        (sym sealed.2) (before old refl)

  -- An advance keeps a ledger valid.
  pub advance-IsValid : IsValid db → IsValid db'
  advance-IsValid valid = record {
    history = History-Advance valid.history;
    ids_used = IdsUsed-stays valid.ids_used;
    branches_known = λ id b found.
        (let known = known_after b (find_branch id db.branches) (valid.branches_known id) (
            subst (λ o. BranchStep db (find_branch id db.branches) o) found
              (adv.branches_step id)) in
          (project_stays b.project_id known.0, thread_stays b.project_id b.thread_id known.1));
    credits = rw (adv.credited, adv.written, adv.credit_row.0, valid.credits) refl;
  }

-- Every history of calls, failed ones included, keeps a valid ledger valid: ids of checkpoints are
-- given once, those of checkpoints and branches stay below the counter, parents are strictly older
-- checkpoints of the same project, projects, threads and lines are those of the row's project, and
-- each checkpoint has exactly one contribution.
pub run-IsValid : (db : Db) (ops : List (Actor × Op)) → IsValid db → IsValid (run db ops)
run-IsValid db ops valid =
    (run_induction IsValid (λ before last. Unit) (λ db v. v.ids_used)
      (λ before db' v adv. advance-IsValid before db' adv v) (λ before. tt)
      (λ before db' last v adv r. tt) db ops valid).0
