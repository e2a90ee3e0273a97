-- ===== src/Ledger/Outcomes/Tagging.antt =====
-- When a tag can be set, and what it pins (tags.py).
use opentheory.Base.{
  ℕ, ◌+◌, ◌≡◌, refl, sym, ap, ◌∙◌, ◌↔◌, inl, inr, true, false, Option, none, some, List, [], ◌∷◌,
  ◌==◌, ==_iff, Bool-cases,
}
use opentheory.Base.Http.{ok}
use mathlib.Core.Path.{subst}
use opentheory.Ledger.Store.{
  Actor, is_open, Branch, Checkpoint, Tag, Db, find_branch, find_checkpoint,
}
use opentheory.Ledger.Checkpoints.{
  check_project, check_thread, check_branch, branch_open, branch_owner, project_of,
  checkpoint_owner, write_checkpoint,
}
use opentheory.Ledger.Branches.{no_extras}
use opentheory.Ledger.Tags.{
  TagCreate, name_taken, line_if_open, recording_branch_id, new_tag, tag_checkpoint, tag_ref,
  create_tag,
}
use opentheory.Ledger.Chokepoint.{Accepts, create_checkpoint_of_Accepts}
use opentheory.Ledger.Steps.Tagging.{create_tag_checks}
use opentheory.Ledger.Validity.{LineKnown, History, IsValid}

-- What a valid history says of a row that a read by id finds.
pub History-found :
    (db : Db) (id : ℕ) (rows : List Checkpoint) {row : Checkpoint}
    → History db rows
    → find_checkpoint id rows ≡ some row
    → (check_project db row.project_id ≡ ok tt)
      × (check_thread db row.project_id row.thread_id ≡ ok tt)
      × LineKnown db row.project_id row.branch_id
History-found db id [] h found = cc
History-found db id (first ∷ older) {row} h found = elim (Bool-cases (first.id == id)) [
  | inl here ↦
      let e : some first ≡ some row = rw here at found in
      let same : first ≡ row = cc in
      subst
        (λ (r : Checkpoint).
          (check_project db r.project_id ≡ ok tt)
          × (check_thread db r.project_id r.thread_id ≡ ok tt)
          × LineKnown db r.project_id r.branch_id)
        same (h.3, h.4, h.5)
  | inr there ↦ History-found db id older h.6 (rw there at found)
]

-- The line that a tag is recorded on takes checkpoints.
line_takes :
    (db : Db) (p id : ℕ) (o : Option Branch)
    → find_branch id db.branches ≡ o
    → branch_owner o ≡ some p
    → check_branch db p (line_if_open id o) ≡ ok tt
line_takes db p id none e h = cc
line_takes db p id (some row) e h = elim (Bool-cases (is_open row.status)) [
  | inl now ↦
      let owned : row.project_id ≡ p = cc in
      let here : (row.project_id == p) ≡ true = (==_iff row.project_id p).1 owned in
      rw now (subst (λ o. branch_open p o ≡ ok tt) (sym e) (rw (here, now) refl))
  | inr shut ↦ rw shut refl
]

recording_takes :
    (db : Db) (p : ℕ) (line : Option ℕ)
    → LineKnown db p line
    → check_branch db p (recording_branch_id db line) ≡ ok tt
recording_takes db p none h = refl
recording_takes db p (some id) h = line_takes db p id (find_branch id db.branches) refl h

module _ (db : Db) (project : ℕ) (payload : TagCreate) (actor : Actor) where
  -- What a tag asks for: a project, a name that is free in it, and a checkpoint of it.
  abbrev pub Taggable : Type 0
  Taggable =
      (check_project db project ≡ ok tt)
      × (name_taken project payload.name db.tags ≡ false)
      × (checkpoint_owner db payload.checkpoint_id ≡ some project)

  tag_of_Taggable :
      (tagged : Checkpoint)
      → IsValid db
      → Taggable
      → find_checkpoint payload.checkpoint_id db.checkpoints ≡ some tagged
      → tagged.project_id ≡ project
      → (result : Tag × Db) × (create_tag db project payload actor ≡ ok result)
  unfolding create_tag
  tag_of_Taggable tagged valid (known, free, owned) found here =
      let base : Db = record db {
        tags = new_tag db project payload actor ∷ db.tags;
        next_id = db.next_id + 1;
      } in
      let row = History-found db payload.checkpoint_id db.checkpoints valid.history found in
      let same : (tagged.project_id == project) ≡ true =
        (==_iff tagged.project_id project).1 here in
      let sent = tag_checkpoint db (new_tag db project payload actor) tagged in
      let extras = record (no_extras (tag_ref db.next_id ∷ [])) {
        contribution_action = some "tag";
      } in
      let accepts : Accepts base project sent = record {
        project_known = known;
        thread_known =
            thread_too tagged.thread_id
              (subst (λ p. check_thread db p tagged.thread_id ≡ ok tt) here row.1);
        line_open = line_too (recording_branch_id db tagged.branch_id) (
            subst (λ p. check_branch db p (recording_branch_id db tagged.branch_id) ≡ ok tt) here
              (recording_takes db tagged.project_id tagged.branch_id row.2));
        parents_known = tt;
        refs_known = tt;
      } in
      let call = create_checkpoint_of_Accepts base project sent actor extras accepts in
      let written = write_checkpoint base project sent actor extras [] in
      ((new_tag db project payload actor, written.1), rw (known, free, found, same, call) refl)
    where
      thread_too :
          (t : Option ℕ)
          → check_thread db project t ≡ ok tt
          → check_thread
              (record db {
                tags = new_tag db project payload actor ∷ db.tags;
                next_id = db.next_id + 1;
              })
              project
              t
            ≡ ok tt
      thread_too none h = h
      thread_too (some t) h = h

      line_too :
          (line : Option ℕ)
          → check_branch db project line ≡ ok tt
          → check_branch
              (record db {
                tags = new_tag db project payload actor ∷ db.tags;
                next_id = db.next_id + 1;
              })
              project
              line
            ≡ ok tt
      line_too none h = h
      line_too (some b) h = h

  owned_row :
      (o : Option Checkpoint)
      → project_of o ≡ some project
      → (tagged : Checkpoint) × (o ≡ some tagged) × (tagged.project_id ≡ project)
  owned_row none h = cc
  owned_row (some tagged) h = (tagged, refl, cc)

  -- In a valid ledger a tag can be set exactly when the project exists, no tag of it has the name,
  -- and the checkpoint is one of the project's: a sealed line never stops it.
  pub create_tag_iff :
      IsValid db
      → ((result : Tag × Db) × (create_tag db project payload actor ≡ ok result)) ↔ Taggable
  create_tag_iff valid = (
    (λ (result, h).
        (let checks = create_tag_checks db project payload actor h in
          (checks.0, checks.1, ap project_of checks.2.1 ∙ ap some checks.2.2))),
    λ taggable.
        (let tagged = owned_row (find_checkpoint payload.checkpoint_id db.checkpoints) taggable.2 in
          tag_of_Taggable tagged.0 valid taggable tagged.1 tagged.2),
  )
