-- ===== src/Ledger/Steps/Merging.antt =====
-- The steps of `merge_branches` (merges.py) against the contract of a ledger operation.
use opentheory.Base.{
  ℕ, ◌≡◌, refl, ap, ◌∙◌, true, false, not, Option, List, [], ◌∷◌, map, ltb, ◌==◌, ==_iff, length,
  All, dedup,
}
use opentheory.Base.Http.{
  bad_request, not_found, ok, raise_if, or_raise, bind_ok, or_raise_ok, raise_if_ok,
}
use mathlib.Core.Path.{subst}
use opentheory.Ledger.Store.{Actor, is_open, Branch, Checkpoint, Db, find_branch}
use opentheory.Ledger.Checkpoints.{check_project, validate_each, create_checkpoint}
use opentheory.Ledger.Merges.{
  MergeCreate, load_open_branch, load_sources, load_target, merge_thread, add_parent, source_heads,
  target_head, set_merged, target_among, merge_checkpoint, merge_extras, merge_branches,
}
use opentheory.Ledger.Chokepoint.{ok-injective}
use opentheory.Ledger.Advance.{Advance, create_checkpoint-Advance}
use opentheory.Ledger.Sealing.{OpenRow, merge-Prepared}
use opentheory.Ledger.Steps.{not-false, find_branch_id}

pub load_open_branch_ok :
    (db : Db) (project id : ℕ) {branch : Branch}
    → load_open_branch db project id ≡ ok branch
    → (branch.id ≡ id) × (branch.project_id ≡ project) × OpenRow db branch
unfolding load_open_branch
load_open_branch_ok db project id {branch} h =
    let c1 = bind_ok (or_raise (find_branch id db.branches) not_found) _ h in
    let c2 = bind_ok (raise_if (not (c1.0.project_id == project)) bad_request) _ c1.2 in
    let c3 = bind_ok (raise_if (not (is_open c1.0.status)) bad_request) _ c2.2 in
    let same : c1.0 ≡ branch = ok-injective c3.2 in
    let found = or_raise_ok _ not_found c1.1 in
    let here : c1.0.id ≡ id = find_branch_id id db.branches found in
    let owned : c1.0.project_id ≡ project =
      (==_iff _ _).0 (not-false _ (raise_if_ok _ bad_request c2.1)) in
    let now : is_open c1.0.status ≡ true = not-false _ (raise_if_ok _ bad_request c3.1) in
    subst (λ (r : Branch). (r.id ≡ id) × (r.project_id ≡ project) × OpenRow db r) same
      (here, owned, (ap (λ i. find_branch i db.branches) here ∙ found, now))

-- The sources that load are the open rows with these ids, in this order.
pub load_sources_ok :
    (db : Db) (project : ℕ) (ids : List ℕ) {sources : List Branch}
    → load_sources db project ids ≡ ok sources
    → (map (λ (b : Branch). b.id) sources ≡ ids)
      × All (λ (b : Branch). b.project_id ≡ project) sources
      × All (OpenRow db) sources
unfolding load_sources
load_sources_ok db project [] {sources} h =
    subst
      (λ (bs : List Branch).
        (map (λ (b : Branch). b.id) bs ≡ [])
        × All (λ (b : Branch). b.project_id ≡ project) bs
        × All (OpenRow db) bs)
      (ok-injective h) (refl, tt, tt)
load_sources_ok db project (id ∷ ids) {sources} h =
    let c1 = bind_ok (load_open_branch db project id) _ h in
    let c2 = bind_ok (load_sources db project ids) _ c1.2 in
    let first = load_open_branch_ok db project id c1.1 in
    let rest = load_sources_ok db project ids c2.1 in
    subst
      (λ (bs : List Branch).
        (map (λ (b : Branch). b.id) bs ≡ id ∷ ids)
        × All (λ (b : Branch). b.project_id ≡ project) bs
        × All (OpenRow db) bs)
      (ok-injective c2.2)
      (
        ap (λ i. i ∷ map (λ (b : Branch). b.id) c2.0) first.0 ∙ ap (λ is. id ∷ is) rest.0,
        (first.1, rest.1),
        (first.2, rest.2),
      )

-- The steps of `merge_branches` that passed.
pub merge_branches_checks :
    (db : Db) (project : ℕ) (payload : MergeCreate) (actor : Actor) {result : Checkpoint × Db}
    → merge_branches db project payload actor ≡ ok result
    → (target_among payload.target_branch_id (dedup [] payload.source_branch_ids) ≡ false)
      × ((sources : List Branch) × (load_sources db project (dedup [] payload.source_branch_ids)
            ≡ ok sources)
          × ((target : Option Branch) × (load_target db project payload.target_branch_id
                ≡ ok target)
              × ((thread : Option ℕ) × (heads : List ℕ) × (source_heads db sources [] ≡ ok heads)
                  × (ltb (length (add_parent (target_head db project thread target) heads)) 2
                      ≡ false)
                  × ((claims : List ℕ) × (create_checkpoint
                          (record db { branches = set_merged sources db.branches })
                          project
                          (merge_checkpoint payload sources target thread
                            (add_parent (target_head db project thread target) heads)
                            claims)
                          actor
                          (merge_extras sources claims)
                        ≡ ok result)))))
unfolding merge_branches
merge_branches_checks db project payload actor h =
    let ids = dedup [] payload.source_branch_ids in
    let c1 = bind_ok (check_project db project) _ h in
    let c2 = bind_ok (raise_if (length ids == 0) bad_request) _ c1.2 in
    let c3 = bind_ok (raise_if (target_among payload.target_branch_id ids) bad_request) _ c2.2 in
    let c4 = bind_ok (load_sources db project ids) _ c3.2 in
    let c5 = bind_ok (load_target db project payload.target_branch_id) _ c4.2 in
    let c6 = bind_ok (merge_thread db project payload.thread_id c4.0) _ c5.2 in
    let c7 = bind_ok (source_heads db c4.0 []) _ c6.2 in
    let c8 =
      bind_ok
        (raise_if (ltb (length (add_parent (target_head db project c6.0 c5.0) c7.0)) 2) bad_request)
        _ c7.2 in
    let c9 = bind_ok (validate_each _ project [] payload.claim_ids) _ c8.2 in
    (
      raise_if_ok _ bad_request c3.1,
      (c4.0, c4.1, (c5.0, c5.1, (c6.0, c7.0, c7.1, raise_if_ok _ bad_request c8.1, (c9.0, c9.2)))),
    )

pub merge_branches-Advance :
    (db : Db) (project : ℕ) (payload : MergeCreate) (actor : Actor) {result : Checkpoint × Db}
    → merge_branches db project payload actor ≡ ok result
    → Advance db result.1
merge_branches-Advance db project payload actor h =
    let checks = merge_branches_checks db project payload actor h in
    let sources = checks.1 in
    create_checkpoint-Advance db _ project _ actor _
      (merge-Prepared db sources.0 (load_sources_ok db project _ sources.1).2) sources.2.2.4.1
