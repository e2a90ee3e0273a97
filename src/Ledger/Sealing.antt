-- ===== src/Ledger/Sealing.antt =====
-- What sealing a branch row (`branch.status = ...`) does to the reads by id.
use opentheory.Base.{
  ℕ, ◌≡◌, refl, sym, ap, ◌∙◌, inl, inr, true, false, Option, none, some, List, [], ◌∷◌, arith, ◌==◌,
  ==_iff, Bool-cases, All,
}
use mathlib.Core.Path.{subst}
use opentheory.Ledger.Store.{BranchStatus, merged, is_open, Branch, Db, find_branch, set_status}
use opentheory.Ledger.Merges.{set_merged}
use opentheory.Ledger.Advance.{BranchStep, Prepared}

-- The row, if there is one, with another status.
abbrev pub restatus : BranchStatus → Option Branch → Option Branch
restatus status none = none
restatus status (some row) = some (record row { status = status })

pub find_set_status_same :
    (b : ℕ) (s : BranchStatus) (rows : List Branch)
    → find_branch b (set_status b s rows) ≡ restatus s (find_branch b rows)
find_set_status_same b s [] = refl
find_set_status_same b s (row ∷ rows) = elim (Bool-cases (row.id == b)) [
  | inl here ↦ rw (here, here)
  | inr there ↦ rw (there, there) (find_set_status_same b s rows)
]

pub find_set_status_other :
    (id b : ℕ) (s : BranchStatus) (rows : List Branch)
    → (b == id) ≡ false
    → find_branch id (set_status b s rows) ≡ find_branch id rows
find_set_status_other id b s [] other = refl
find_set_status_other id b s (row ∷ rows) other = elim (Bool-cases (row.id == b)) [
  | inl here ↦ (let apart : (row.id == id) ≡ false = ground arith in rw (here, apart))
  | inr there ↦ elim (Bool-cases (row.id == id)) [
    | inl found ↦ rw (there, found)
    | inr missed ↦ rw (there, missed) (find_set_status_other id b s rows other)
  ]
]

pub restep :
    (db : Db) (old : Branch) (s : BranchStatus) (o o' : Option Branch)
    → o ≡ some old
    → is_open old.status ≡ true
    → is_open s ≡ false
    → BranchStep db o o'
    → BranchStep db o (restatus s o')
restep db old s none o' e was now h = cc
restep db old s (some row) none e was now h = elim h [ ]
restep db old s (some row) (some mid) e was now (inl same) =
    inr (cc, now, ap (λ (r : Branch). record r { status = s }) same)
restep db old s (some row) (some mid) e was now (inr h) =
    inr (h.0, now, ap (λ (r : Branch). record r { status = s }) h.2)

-- Sealing one more row that was open keeps the contract of the branch rows.
pub seal_step :
    (db : Db) (rows : List Branch) (b : ℕ) (s : BranchStatus) (old : Branch)
    → find_branch b db.branches ≡ some old
    → is_open old.status ≡ true
    → is_open s ≡ false
    → ((id : ℕ) → BranchStep db (find_branch id db.branches) (find_branch id rows))
    → (id : ℕ) → BranchStep db (find_branch id db.branches) (find_branch id (set_status b s rows))
seal_step db rows b s old found was now h id = elim (Bool-cases (b == id)) [
  | inl here ↦
      let e : b ≡ id = (==_iff b id).0 here in
      subst (λ i. BranchStep db (find_branch i db.branches) (find_branch i (set_status b s rows))) e
        (subst (λ o. BranchStep db (find_branch b db.branches) o)
          (sym (find_set_status_same b s rows))
          (restep db old s (find_branch b db.branches) (find_branch b rows) found was now (h b)))
  | inr other ↦
      subst (λ o. BranchStep db (find_branch id db.branches) o)
        (sym (find_set_status_other id b s rows other)) (h id)
]

-- A source as `load_sources` returns it: an open row of the table.
abbrev pub OpenRow : Db → Branch → Type 0
OpenRow db source =
    (find_branch source.id db.branches ≡ some source) × (is_open source.status ≡ true)

pub merged_step :
    (db : Db) (sources : List Branch) (rows : List Branch)
    → All (OpenRow db) sources
    → ((id : ℕ) → BranchStep db (find_branch id db.branches) (find_branch id rows))
    → (id : ℕ)
    → BranchStep db (find_branch id db.branches) (find_branch id (set_merged sources rows))
merged_step db [] rows known h id = h id
merged_step db (source ∷ sources) rows known h id =
    merged_step db sources (set_status source.id merged rows) known.1
      (seal_step db rows source.id merged source known.0.0 known.0.1 refl h) id

pub branch_stays : (db : Db) (o : Option Branch) → BranchStep db o o
branch_stays db none = tt
branch_stays db (some row) = inl refl

-- A step adds no row under an id that it leaves without one.
pub no_new : (db : Db) (o : Option Branch) → BranchStep db o none → o ≡ none
no_new db none h = refl
no_new db (some row) h = elim h [ ]

-- Sealing makes no row.
set_status-none :
    (id b : ℕ) (s : BranchStatus) (rows : List Branch)
    → find_branch id rows ≡ none
    → find_branch id (set_status b s rows) ≡ none
set_status-none id b s rows h = elim (Bool-cases (b == id)) [
  | inl here ↦
      let e : b ≡ id = (==_iff b id).0 here in
      subst (λ i. find_branch i (set_status b s rows) ≡ none) e
        (find_set_status_same b s rows ∙ ap (restatus s) (ap (λ i. find_branch i rows) e ∙ h))
  | inr other ↦ find_set_status_other id b s rows other ∙ h
]

set_merged-none :
    (id : ℕ) (sources rows : List Branch)
    → find_branch id rows ≡ none
    → find_branch id (set_merged sources rows) ≡ none
set_merged-none id [] rows h = h
set_merged-none id (source ∷ sources) rows h =
    set_merged-none id sources (set_status source.id merged rows)
      (set_status-none id source.id merged rows h)

-- Rows of branches that were sealed, and nothing else, prepare the call of the chokepoint.
sealed-Prepared :
    (db : Db) (rows : List Branch)
    → ((id : ℕ) → BranchStep db (find_branch id db.branches) (find_branch id rows))
    → ((id : ℕ) → find_branch id db.branches ≡ none → find_branch id rows ≡ none)
    → Prepared db (record db { branches = rows })
sealed-Prepared db rows step none_new = record {
  same_checkpoints = refl;
  same_refs = refl;
  same_contributions = refl;
  same_projects = refl;
  same_threads = refl;
  next_grows = omega arith;
  branches_step = step;
  branches_used = λ id new old. elim (new (none_new id old)) [ ];
  tags_grow = ([], refl);
}

pub seal-Prepared :
    (db : Db) (b : ℕ) (s : BranchStatus) (old : Branch)
    → find_branch b db.branches ≡ some old
    → is_open old.status ≡ true
    → is_open s ≡ false
    → Prepared db (record db { branches = set_status b s db.branches })
seal-Prepared db b s old found was now =
    sealed-Prepared db (set_status b s db.branches)
      (seal_step db db.branches b s old found was now
        (λ id. branch_stays db (find_branch id db.branches)))
      (λ id. set_status-none id b s db.branches)

pub merge-Prepared :
    (db : Db) (sources : List Branch)
    → All (OpenRow db) sources
    → Prepared db (record db { branches = set_merged sources db.branches })
merge-Prepared db sources known =
    sealed-Prepared db (set_merged sources db.branches)
      (merged_step db sources db.branches known
        (λ id. branch_stays db (find_branch id db.branches)))
      (λ id. set_merged-none id sources db.branches)
