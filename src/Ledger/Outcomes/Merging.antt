-- ===== src/Ledger/Outcomes/Merging.antt =====
-- About what a successful merge leaves behind (merges.py).
use opentheory.Base.{
  ℕ, ◌≤◌, ◌≡◌, refl, sym, ap, ◌∙◌, inl, inr, false, Option, none, some, List, [], ◌∷◌, map, arith,
  ltb, ◌==◌, ==_iff, Bool-cases, length, All, In, dedup,
}
use opentheory.Base.Http.{ok, bind_ok}
use mathlib.Core.Path.{subst}
use opentheory.Ledger.Store.{Actor, merged, Branch, Checkpoint, Db, find_branch, set_status}
use opentheory.Ledger.Merges.{
  MergeCreate, load_open_branch, load_target, add_parent, target_head, set_merged, branch_id_of,
  merge_branches,
}
use opentheory.Ledger.Chokepoint.{ok-injective}
use opentheory.Ledger.Sealing.{OpenRow, restatus, find_set_status_same, find_set_status_other}
use opentheory.Ledger.Steps.Merging.{load_open_branch_ok, load_sources_ok, merge_branches_checks}
use opentheory.Ledger.Outcomes.{written_row}
use opentheory.Ledger.Outcomes.Heads.{
  Distinct, add_parent-Distinct, source_heads-Distinct, dedup-Distinct, none_seen, add_parent_keeps,
  HeadAmong, source_heads_lem,
}

-- The row under the id, of the project.
abbrev pub RowOf : ℕ → ℕ → List Branch → Type 0
RowOf project id rows = (b : Branch) × (find_branch id rows ≡ some b) × (b.project_id ≡ project)

-- The row under the id, of the project and merged.
abbrev pub MergedRow : ℕ → List Branch → ℕ → Type 0
MergedRow project rows id =
    (b : Branch) × (find_branch id rows ≡ some b) × (b.project_id ≡ project) × (b.status ≡ merged)

merge-MergedRow :
    (project id : ℕ) (rows : List Branch)
    → RowOf project id rows
    → MergedRow project (set_status id merged rows) id
merge-MergedRow project id rows (b, found, owned) = (
  record b { status = merged },
  find_set_status_same id merged rows ∙ ap (restatus merged) found,
  owned,
  refl,
)

set_status-RowOf :
    (project id other : ℕ) (rows : List Branch)
    → RowOf project id rows
    → RowOf project id (set_status other merged rows)
set_status-RowOf project id other rows (b, found, owned) = elim (Bool-cases (other == id)) [
  | inl here ↦
      let same : other ≡ id = (==_iff other id).0 here in
      subst (λ o. RowOf project id (set_status o merged rows)) (sym same)
        (let row = merge-MergedRow project id rows (b, found, owned) in (row.0, row.1, row.2))
  | inr there ↦ (b, find_set_status_other id other merged rows there ∙ found, owned)
]

set_status-MergedRow :
    (project id other : ℕ) (rows : List Branch)
    → MergedRow project rows id
    → MergedRow project (set_status other merged rows) id
set_status-MergedRow project id other rows (b, found, owned, done) =
    elim (Bool-cases (other == id)) [
      | inl here ↦
          let same : other ≡ id = (==_iff other id).0 here in
          subst (λ o. MergedRow project (set_status o merged rows) id) (sym same)
            (merge-MergedRow project id rows (b, found, owned))
      | inr there ↦ (b, find_set_status_other id other merged rows there ∙ found, owned, done)
    ]

set_merged-MergedRow :
    (project id : ℕ) (sources rows : List Branch)
    → MergedRow project rows id
    → MergedRow project (set_merged sources rows) id
set_merged-MergedRow project id [] rows h = h
set_merged-MergedRow project id (source ∷ sources) rows h =
    set_merged-MergedRow project id sources (set_status source.id merged rows)
      (set_status-MergedRow project id source.id rows h)

sources-MergedRow :
    (project : ℕ) (sources rows : List Branch)
    → All (λ (b : Branch). RowOf project b.id rows) sources
    → All (MergedRow project (set_merged sources rows)) (map (λ (b : Branch). b.id) sources)
sources-MergedRow project [] rows h = tt
sources-MergedRow project (source ∷ sources) rows h = (
  set_merged-MergedRow project source.id sources (set_status source.id merged rows)
      (merge-MergedRow project source.id rows h.0),
  sources-MergedRow project sources (set_status source.id merged rows) (rest sources h.1),
)
  where
    rest :
        (bs : List Branch)
        → All (λ (b : Branch). RowOf project b.id rows) bs
        → All (λ (b : Branch). RowOf project b.id (set_status source.id merged rows)) bs
    rest [] known = tt
    rest (b ∷ bs) known = (set_status-RowOf project b.id source.id rows known.0, rest bs known.1)

open_rows-RowOf :
    (db : Db) (project : ℕ) (sources : List Branch)
    → All (λ (b : Branch). b.project_id ≡ project) sources
    → All (OpenRow db) sources
    → All (λ (b : Branch). RowOf project b.id db.branches) sources
open_rows-RowOf db project [] owned rows = tt
open_rows-RowOf db project (b ∷ bs) owned rows =
    ((b, rows.0.0, owned.0), open_rows-RowOf db project bs owned.1 rows.1)

All-HeadAmong :
    (db : Db) (parents parents' ids : List ℕ)
    → ((id : ℕ) → In id parents → In id parents')
    → All (HeadAmong db parents) ids
    → All (HeadAmong db parents') ids
All-HeadAmong db parents parents' [] more h = tt
All-HeadAmong db parents parents' (id ∷ ids) more h =
    ((h.0.0, h.0.1, more h.0.0.id h.0.2), All-HeadAmong db parents parents' ids more h.1)

load_target_id :
    (db : Db) (project : ℕ) (id : Option ℕ) {target : Option Branch}
    → load_target db project id ≡ ok target
    → branch_id_of target ≡ id
unfolding load_target
load_target_id db project none h = sym (ap branch_id_of (ok-injective h))
load_target_id db project (some id) h =
    let c1 = bind_ok (load_open_branch db project id) _ h in
    sym (ap branch_id_of (ok-injective c1.2)) ∙ ap some (load_open_branch_ok db project id c1.1).0

at_least_two : (n : ℕ) → ltb n 2 ≡ false → 2 ≤ n
at_least_two n h = ground arith

-- A merge that succeeds leaves every named source merged, and its checkpoint stands on the named
-- target, with at least two parents, all distinct, among them the newest checkpoint that each source
-- had before.
pub merge_branches_synthesizes :
    (db : Db) (project : ℕ) (payload : MergeCreate) (actor : Actor) {result : Checkpoint × Db}
    → merge_branches db project payload actor ≡ ok result
    → All (MergedRow project result.1.branches) (dedup [] payload.source_branch_ids)
      × All (HeadAmong db result.0.parents) (dedup [] payload.source_branch_ids)
      × Distinct result.0.parents
      × (2 ≤ length result.0.parents)
      × (result.0.branch_id ≡ payload.target_branch_id)
merge_branches_synthesizes db project payload actor {result} h =
    let checks = merge_branches_checks db project payload actor h in
    let sources = checks.1 in
    let target = sources.2 in
    let heads = target.2 in
    let loaded = load_sources_ok db project (dedup [] payload.source_branch_ids) sources.1 in
    let row = written_row _ project _ actor _ heads.4.1 in
    let collected = add_parent (target_head db project heads.0 target.0) heads.1 in
    let distinct : Distinct collected =
      add_parent-Distinct (target_head db project heads.0 target.0) heads.1
        (source_heads-Distinct db sources.0 [] heads.2 tt) in
    let parents : result.0.parents ≡ collected =
      row.0 ∙ dedup-Distinct [] collected (none_seen collected) distinct in
    (
      subst (λ rows. All (MergedRow project rows) (dedup [] payload.source_branch_ids)) (sym row.3)
          (subst (λ ids. All (MergedRow project (set_merged sources.0 db.branches)) ids) loaded.0
            (sources-MergedRow project sources.0 db.branches
              (open_rows-RowOf db project sources.0 loaded.1 loaded.2))),
      subst (λ ps. All (HeadAmong db ps) (dedup [] payload.source_branch_ids)) (sym parents)
          (All-HeadAmong db heads.1 collected (dedup [] payload.source_branch_ids)
            (λ id. add_parent_keeps (target_head db project heads.0 target.0) heads.1 id)
            (subst (λ ids. All (HeadAmong db heads.1) ids) loaded.0
              (source_heads_lem db sources.0 [] heads.2))),
      subst Distinct (sym parents) distinct,
      subst (λ ps. 2 ≤ length ps) (sym parents) (at_least_two (length collected) heads.3),
      row.1 ∙ load_target_id db project payload.target_branch_id target.1,
    )
