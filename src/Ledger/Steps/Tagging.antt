-- ===== src/Ledger/Steps/Tagging.antt =====
-- The steps of `create_tag` (tags.py) against the contract of a ledger operation.
use opentheory.Base.{ℕ, ◌+◌, ◌≡◌, refl, false, not, some, [], ◌∷◌, arith, ◌==◌, ==_iff}
use opentheory.Base.Http.{
  bad_request, not_found, conflict, ok, raise_if, or_raise, bind_ok, or_raise_ok, raise_if_ok,
}
use mathlib.Core.Path.{subst}
use opentheory.Ledger.Store.{Actor, Checkpoint, Tag, Db, find_branch, find_checkpoint}
use opentheory.Ledger.Checkpoints.{check_project, create_checkpoint}
use opentheory.Ledger.Branches.{no_extras}
use opentheory.Ledger.Tags.{TagCreate, name_taken, new_tag, tag_checkpoint, tag_ref, create_tag}
use opentheory.Ledger.Chokepoint.{ok-injective}
use opentheory.Ledger.Advance.{Advance, create_checkpoint-Advance}
use opentheory.Ledger.Sealing.{branch_stays}
use opentheory.Ledger.Steps.{not-false}

pub create_tag_checks :
    (db : Db) (project : ℕ) (payload : TagCreate) (actor : Actor) {result : Tag × Db}
    → create_tag db project payload actor ≡ ok result
    → (check_project db project ≡ ok tt)
      × (name_taken project payload.name db.tags ≡ false)
      × ((tagged : Checkpoint) × (find_checkpoint payload.checkpoint_id db.checkpoints
            ≡ some tagged)
          × (tagged.project_id ≡ project)
          × ((written : Checkpoint × Db) × (create_checkpoint
                  (record db {
                    tags = new_tag db project payload actor ∷ db.tags;
                    next_id = db.next_id + 1;
                  })
                  project
                  (tag_checkpoint db (new_tag db project payload actor) tagged)
                  actor
                  (record (no_extras (tag_ref db.next_id ∷ [])) {
                    contribution_action = some "tag";
                  })
                ≡ ok written)
              × ((new_tag db project payload actor, written.1) ≡ result)))
unfolding create_tag
create_tag_checks db project payload actor h =
    let c1 = bind_ok (check_project db project) _ h in
    let c2 = bind_ok (raise_if (name_taken project payload.name db.tags) conflict) _ c1.2 in
    let c3 =
      bind_ok (or_raise (find_checkpoint payload.checkpoint_id db.checkpoints) not_found) _ c2.2 in
    let c4 = bind_ok (raise_if (not (c3.0.project_id == project)) bad_request) _ c3.2 in
    let c5 = bind_ok (create_checkpoint _ project _ actor _) _ c4.2 in
    (
      c1.1,
      raise_if_ok _ conflict c2.1,
      (
        c3.0,
        or_raise_ok _ not_found c3.1,
        (==_iff _ _).0 (not-false _ (raise_if_ok _ bad_request c4.1)),
        (c5.0, c5.1, ok-injective c5.2),
      ),
    )

pub create_tag-Advance :
    (db : Db) (project : ℕ) (payload : TagCreate) (actor : Actor) {result : Tag × Db}
    → create_tag db project payload actor ≡ ok result
    → Advance db result.1
create_tag-Advance db project payload actor h =
    let checks = create_tag_checks db project payload actor h in
    let call = checks.2.3 in
    subst (λ (r : Tag × Db). Advance db r.1) call.2
      (create_checkpoint-Advance db _ project _ actor _
        (record {
          same_checkpoints = refl;
          same_refs = refl;
          same_contributions = refl;
          same_projects = refl;
          same_threads = refl;
          next_grows = omega arith;
          branches_step = λ id. branch_stays db (find_branch id db.branches);
          branches_used = λ id new old. elim (new old) [ ];
          tags_grow = (new_tag db project payload actor ∷ [], refl);
        })
        call.1)
