-- ===== src/Ledger/Chokepoint.antt =====
-- When `create_checkpoint` succeeds, and what it then writes.
use opentheory.Base.{
  ℕ, ◌≡◌, refl, ap, ◌∙◌, inl, inr, not, Option, none, some, List, [], ◌∷◌, arith, ◌==◌, Bool-cases,
  All, elem, dedup,
}
use opentheory.Base.Http.{bad_request, ok, bind_ok, raise_if_ok}
use opentheory.Ledger.Store.{Actor, Checkpoint, RefInput, Db}
use opentheory.Ledger.Checkpoints.{
  CheckpointCreate, Extras, in_project, check_project, check_thread, check_branch, checkpoint_owner,
  validate_each, validate_parents, ref_owner, check_ref, validate_refs, write_checkpoint,
  create_checkpoint,
}

pub ok-injective {ℓ} : {A : Type ℓ} {a b : A} → ok a ≡ ok b → a ≡ b
ok-injective h = cc

pub in_project_ok : (p : ℕ) (o : Option ℕ) {x : Unit {0}} → in_project p o ≡ ok x → o ≡ some p
in_project_ok p none h = cc
in_project_ok p (some q) h = ground (arith, raise_if_ok (not (q == p)) bad_request h)

pub in_project_of : (p : ℕ) (o : Option ℕ) → o ≡ some p → in_project p o ≡ ok tt
in_project_of p none h = cc
in_project_of p (some q) h = ground arith

module _ (find : ℕ → Option ℕ) (p : ℕ) where
  -- Every id names a row of the project.
  abbrev pub Known : List ℕ → Type 0
  Known ids = All (λ id. find id ≡ some p) ids

  -- The ids that pass are the distinct ones, and all name rows of the project.
  pub validate_each_ok :
      (seen ids : List ℕ) {valid : List ℕ}
      → validate_each find p seen ids ≡ ok valid
      → (dedup seen ids ≡ valid) × Known (dedup seen ids)
  unfolding validate_each
  validate_each_ok seen [] h = (cc, tt)
  validate_each_ok seen (id ∷ ids) {valid} h = elim (Bool-cases (elem id seen)) [
    | inl again ↦ rw again (validate_each_ok seen ids (rw again at h))
    | inr new ↦
        let checked = bind_ok (in_project p (find id)) _ (rw new at h) in
        let passed = bind_ok (validate_each find p (id ∷ seen) ids) _ checked.2 in
        let rest = validate_each_ok (id ∷ seen) ids passed.1 in
        rw new (
          ap (λ ids'. id ∷ ids') rest.0 ∙ ok-injective passed.2,
          (in_project_ok p (find id) checked.1, rest.1),
        )
  ]

  pub validate_each_of_Known :
      (seen ids : List ℕ)
      → Known (dedup seen ids)
      → validate_each find p seen ids ≡ ok (dedup seen ids)
  unfolding validate_each
  validate_each_of_Known seen [] h = refl
  validate_each_of_Known seen (id ∷ ids) h = elim (Bool-cases (elem id seen)) [
    | inl again ↦ rw again (validate_each_of_Known seen ids (rw again at h))
    | inr new ↦
        let parts : (find id ≡ some p) × Known (dedup (id ∷ seen) ids) = rw new at h in
        rw (new, in_project_of p (find id) parts.0, validate_each_of_Known (id ∷ seen) ids parts.1)
  ]

-- The reference names a row of the project.
abbrev pub RefInProject : Db → ℕ → RefInput → Type 0
RefInProject db p ref = ref_owner db ref.target_type ref.target_id ≡ some (some p)

check_ref_ok :
    (p : ℕ) (o : Option (Option ℕ)) {x : Unit {0}} → check_ref p o ≡ ok x → o ≡ some (some p)
check_ref_ok p none h = cc
check_ref_ok p (some o) h = ap some (in_project_ok p o h)

pub validate_refs_ok :
    (db : Db) (p : ℕ) (refs : List RefInput) {x : Unit {0}}
    → validate_refs db p refs ≡ ok x
    → All (RefInProject db p) refs
unfolding validate_refs
validate_refs_ok db p [] h = tt
validate_refs_ok db p (ref ∷ refs) h =
    let first = bind_ok (check_ref p (ref_owner db ref.target_type ref.target_id)) _ h in
    (check_ref_ok p _ first.1, validate_refs_ok db p refs first.2)

validate_refs_of_All :
    (db : Db) (p : ℕ) (refs : List RefInput)
    → All (RefInProject db p) refs
    → validate_refs db p refs ≡ ok tt
unfolding validate_refs
validate_refs_of_All db p [] h = refl
validate_refs_of_All db p (ref ∷ refs) h =
    rw (h.0, in_project_of p (some p) refl) (validate_refs_of_All db p refs h.1)

-- What the checks of `create_checkpoint` ask for.
pub record Accepts (db : Db) (project : ℕ) (payload : CheckpointCreate) : Type 0 where
  pub project_known : check_project db project ≡ ok tt
  pub thread_known : check_thread db project payload.thread_id ≡ ok tt
  pub line_open : check_branch db project payload.branch_id ≡ ok tt
  pub parents_known :
      All (λ id. checkpoint_owner db id ≡ some project) (dedup [] payload.parent_ids)
  pub refs_known : All (RefInProject db project) payload.refs

-- What a call that succeeds has passed, and the rows that it wrote.
pub create_checkpoint_ok :
    (db : Db) (project : ℕ) (payload : CheckpointCreate) (actor : Actor) (extras : Extras)
    {result : Checkpoint × Db}
    → create_checkpoint db project payload actor extras ≡ ok result
    → Accepts db project payload
      × (write_checkpoint db project payload actor extras (dedup [] payload.parent_ids) ≡ result)
unfolding create_checkpoint validate_parents
create_checkpoint_ok db project payload actor extras h =
    let c1 = bind_ok (check_project db project) _ h in
    let c2 = bind_ok (check_thread db project payload.thread_id) _ c1.2 in
    let c3 = bind_ok (check_branch db project payload.branch_id) _ c2.2 in
    let c4 = bind_ok (validate_parents db project payload.parent_ids) _ c3.2 in
    let c5 = bind_ok (validate_refs db project payload.refs) _ c4.2 in
    let parents = validate_each_ok (checkpoint_owner db) project [] payload.parent_ids c4.1 in
    (
      record {
        project_known = c1.1;
        thread_known = c2.1;
        line_open = c3.1;
        parents_known = parents.1;
        refs_known = validate_refs_ok db project payload.refs c5.1;
      },
      ap (write_checkpoint db project payload actor extras) parents.0 ∙ ok-injective c5.2,
    )

pub create_checkpoint_of_Accepts :
    (db : Db) (project : ℕ) (payload : CheckpointCreate) (actor : Actor) (extras : Extras)
    → Accepts db project payload
    → create_checkpoint db project payload actor extras
      ≡ ok (write_checkpoint db project payload actor extras (dedup [] payload.parent_ids))
unfolding create_checkpoint validate_parents
create_checkpoint_of_Accepts db project payload actor extras h = rw (
  h.project_known,
  h.thread_known,
  h.line_open,
  validate_each_of_Known (checkpoint_owner db) project [] payload.parent_ids h.parents_known,
  validate_refs_of_All db project payload.refs h.refs_known,
)
