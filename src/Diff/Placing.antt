-- ===== src/Diff/Placing.antt =====
-- Where the refs of a diff lead (`resolve_ref` of backend/app/services/diff.py).
use opentheory.Base.{
  ℕ, Bool, ◌&&◌, ◌≡◌, refl, sym, ap, ◌∙◌, inl, inr, true, Option, none, some, List, [], ◌∷◌, arith,
  ◌==◌, ==_iff, Bool-cases, In, opt_eq,
}
use opentheory.Base.Http.{bad_request, ok, err}
use opentheory.Base.Text.{Text, text_eq, strip}
use mathlib.Core.Path.{subst}
use opentheory.Ledger.Store.{Branch, Checkpoint, Tag, Db, find_branch, find_checkpoint}
use opentheory.Ledger.Checkpoints.{branch_owner, project_of, checkpoint_owner}
use opentheory.Ledger.Merges.{newest, latest_on_branch, latest_main_line}
use opentheory.Ledger.Validity.{LineKnown, History, IsValid}
use opentheory.Ledger.Outcomes.Tagging.{History-found}
use opentheory.Ledger.Chokepoint.{ok-injective}
use opentheory.Diff.Refs.{
  ResolvedRef, find_tag, tag_named, branches_named, of_project, tag_pin, branch_tip, main_tip,
  resolve_found, resolve_named, is_main, resolve_value, resolve_ref,
}

-- Ids of branches are keys, as the primary key of their table keeps them, and a tag pins a checkpoint
-- of its own project, as the check of `create_tag` keeps it: the table of tags has no such constraint.
pub record IsKeyed (db : Db) : Type 0 where
  pub branch_ids : (row : Branch) → In row db.branches → find_branch row.id db.branches ≡ some row
  pub tag_pins :
      (row : Tag) → In row db.tags → checkpoint_owner db row.checkpoint_id ≡ some row.project_id

newest_finds :
    (db : Db) (test : Checkpoint → Bool) (rows : List Checkpoint) {row : Checkpoint}
    → History db rows
    → newest test rows ≡ some row
    → (find_checkpoint row.id rows ≡ some row) × (test row ≡ true)
newest_finds db test [] h found = cc
newest_finds db test (first ∷ older) {row} h found = elim (Bool-cases (test first)) [
  | inl here ↦
      let e : some first ≡ some row = rw here at found in
      let same : first ≡ row = cc in
      let own : (first.id == first.id) ≡ true = ground arith in
      subst (λ r. (find_checkpoint r.id (first ∷ older) ≡ some r) × (test r ≡ true)) same
        (rw own refl, here)
  | inr there ↦
      let rest = newest_finds db test older h.6 (rw there at found) in
      elim (Bool-cases (first.id == row.id)) [
        | inl clash ↦
            let missing : find_checkpoint row.id older ≡ none =
              subst (λ i. find_checkpoint i older ≡ none) ((==_iff first.id row.id).0 clash) h.1 in
            let bad : none ≡ some row = sym missing ∙ rest.0 in cc
        | inr apart ↦ (rw apart rest.0, rest.1)
      ]
]

find_checkpoint-id :
    (id : ℕ) (rows : List Checkpoint) {row : Checkpoint}
    → find_checkpoint id rows ≡ some row
    → row.id ≡ id
find_checkpoint-id id [] found = cc
find_checkpoint-id id (first ∷ rows) {row} found = elim (Bool-cases (first.id == id)) [
  | inl here ↦
      let e : some first ≡ some row = rw here at found in
      let same : first ≡ row = cc in rw (← same) ((==_iff first.id id).0 here)
  | inr there ↦ find_checkpoint-id id rows (rw there at found)
]

find_tag-In : (id : ℕ) (rows : List Tag) {row : Tag} → find_tag id rows ≡ some row → In row rows
find_tag-In id [] found = cc
find_tag-In id (first ∷ rows) {row} found = elim (Bool-cases (first.id == id)) [
  | inl here ↦ (let e : some first ≡ some row = rw here at found in inl cc)
  | inr there ↦ inr (find_tag-In id rows (rw there at found))
]

find_branch-In :
    (id : ℕ) (rows : List Branch) {row : Branch} → find_branch id rows ≡ some row → In row rows
find_branch-In id [] found = cc
find_branch-In id (first ∷ rows) {row} found = elim (Bool-cases (first.id == id)) [
  | inl here ↦ (let e : some first ≡ some row = rw here at found in inl cc)
  | inr there ↦ inr (find_branch-In id rows (rw there at found))
]

tag_named-In :
    (project : ℕ) (name : Text) (rows : List Tag) {row : Tag}
    → tag_named project name rows ≡ some row
    → In row rows × (row.project_id ≡ project)
tag_named-In project name [] found = cc
tag_named-In project name (first ∷ rows) {row} found =
    elim (Bool-cases (first.project_id == project && text_eq first.name name)) [
      | inl here ↦
          let e : some first ≡ some row = rw here at found in
          let same : first ≡ row = cc in (inl same, rw (← same) (ground arith))
      | inr there ↦
          let rest = tag_named-In project name rows (rw there at found) in (inr rest.0, rest.1)
    ]

branches_named-In :
    (project : ℕ) (name : Text) (rows : List Branch) (row : Branch)
    → In row (branches_named project name rows)
    → In row rows × (row.project_id ≡ project)
branches_named-In project name [] row there = elim there [ ]
branches_named-In project name (first ∷ rows) row there =
    elim (Bool-cases (first.project_id == project && text_eq first.name name)) [
      | inl here ↦ elim (rw here at there) [
        | inl same ↦ (inl same, rw (← same) (ground arith))
        | inr later ↦
            (let rest = branches_named-In project name rows row later in (inr rest.0, rest.1))
      ]
      | inr other ↦
          let rest = branches_named-In project name rows row (rw other at there) in
          (inr rest.0, rest.1)
    ]

of_project_keeps :
    {A : Type 0} (owner : A → ℕ) (project : ℕ) (o : Option A) {row : A}
    → of_project owner project o ≡ some row
    → (o ≡ some row) × (owner row ≡ project)
of_project_keeps owner project none h = cc
of_project_keeps owner project (some first) {row} h = elim (Bool-cases (owner first == project)) [
  | inl here ↦
      let e : some first ≡ some row = rw here at h in
      let same : first ≡ row = cc in
      (e, ap owner (sym same) ∙ (==_iff (owner first) project).0 here)
  | inr there ↦ (let bad : none ≡ some row = rw there at h in cc)
]

opt_eq_holds : (o : Option ℕ) (b : ℕ) → opt_eq o (some b) ≡ true → o ≡ some b
opt_eq_holds none b h = cc
opt_eq_holds (some a) b h = ap some ((==_iff a b).0 h)

-- The ref leads to a checkpoint of the project.
abbrev pub Placed : Db → ℕ → ResolvedRef → Type 0
Placed db project ref = checkpoint_owner db ref.checkpoint_id ≡ some project

module _ (db : Db) (project : ℕ) (valid : IsValid db) (keyed : IsKeyed db) where
  tip_owner :
      (row : Branch) (tip : Checkpoint)
      → In row db.branches
      → latest_on_branch db row.id ≡ some tip
      → checkpoint_owner db tip.id ≡ some row.project_id
  tip_owner row tip there latest =
      let found = newest_finds db _ db.checkpoints valid.history latest in
      let line = opt_eq_holds tip.branch_id row.id found.1 in
      let known : LineKnown db tip.project_id (some row.id) =
        subst (λ o. LineKnown db tip.project_id o) line
          (History-found db tip.id db.checkpoints valid.history found.0).2 in
      ap project_of found.0 ∙ (sym known ∙ ap branch_owner (keyed.branch_ids row there))

  branch_tip-Placed :
      (value : Text) (row : Branch) {ref : ResolvedRef} (o : Option Checkpoint)
      → latest_on_branch db row.id ≡ o
      → In row db.branches
      → row.project_id ≡ project
      → branch_tip value row o ≡ ok ref
      → Placed db project ref
  branch_tip-Placed value row none latest there mine h = cc
  branch_tip-Placed value row (some tip) latest there mine h =
      subst (Placed db project) (ok-injective h) (tip_owner row tip there latest ∙ ap some mine)

  tag_pin-Placed :
      (value : Text) (row : Tag)
      → In row db.tags
      → row.project_id ≡ project
      → Placed db project (tag_pin value row)
  tag_pin-Placed value row there mine = keyed.tag_pins row there ∙ ap some mine

  main_tip-Placed :
      (value : Text) {ref : ResolvedRef} (o : Option Checkpoint)
      → latest_main_line db project none ≡ o
      → main_tip value o ≡ ok ref
      → Placed db project ref
  main_tip-Placed value none latest h = cc
  main_tip-Placed value (some tip) latest h =
      let found = newest_finds db _ db.checkpoints valid.history latest in
      let mine : (tip.project_id == project) ≡ true = ground arith in
      subst (Placed db project) (ok-injective h)
        (ap project_of found.0 ∙ ap some ((==_iff tip.project_id project).0 mine))

  resolve_found-Placed :
      (value : Text) (id : ℕ) {ref : ResolvedRef} (c : Option Checkpoint) (t : Option Tag)
      (b : Option Branch)
      → of_project
          (λ (row : Checkpoint). row.project_id)
          project
          (find_checkpoint id db.checkpoints)
        ≡ c
      → of_project (λ (row : Tag). row.project_id) project (find_tag id db.tags) ≡ t
      → of_project (λ (row : Branch). row.project_id) project (find_branch id db.branches) ≡ b
      → resolve_found db value c t b ≡ ok ref
      → Placed db project ref
  resolve_found-Placed value id (some row) t b hc ht hb h =
      let found = of_project_keeps (λ (row : Checkpoint). row.project_id) project _ hc in
      let own = find_checkpoint-id id db.checkpoints found.0 in
      subst (Placed db project) (ok-injective h)
        (ap (checkpoint_owner db) own ∙ (ap project_of found.0 ∙ ap some found.1))
  resolve_found-Placed value id none (some row) b hc ht hb h =
      let found = of_project_keeps (λ (row : Tag). row.project_id) project _ ht in
      subst (Placed db project) (ok-injective h)
        (tag_pin-Placed value row (find_tag-In id db.tags found.0) found.1)
  resolve_found-Placed value id none none (some row) hc ht hb h =
      let found = of_project_keeps (λ (row : Branch). row.project_id) project _ hb in
      branch_tip-Placed value row (latest_on_branch db row.id) refl
        (find_branch-In id db.branches found.0) found.1 h
  resolve_found-Placed value id none none none hc ht hb h = cc

  resolve_named-Placed :
      (value : Text) {ref : ResolvedRef} (t : Option Tag) (rows : List Branch)
      → tag_named project value db.tags ≡ t
      → ((row : Branch) → In row rows → In row db.branches × (row.project_id ≡ project))
      → resolve_named db value t rows ≡ ok ref
      → Placed db project ref
  resolve_named-Placed value (some row) rows ht hb h =
      let found = tag_named-In project value db.tags ht in
      subst (Placed db project) (ok-injective h) (tag_pin-Placed value row found.0 found.1)
  resolve_named-Placed value none [] ht hb h = cc
  resolve_named-Placed value none (row ∷ []) ht hb h =
      let found = hb row (inl refl) in
      branch_tip-Placed value row (latest_on_branch db row.id) refl found.0 found.1 h
  resolve_named-Placed value none (row ∷ other ∷ rows) ht hb h = cc

  resolve_value-Placed :
      (uuid : Text → Option ℕ) (lower : Text → Text) (value : Text) (o : Option ℕ)
      {ref : ResolvedRef}
      → resolve_value uuid lower db project value o ≡ ok ref
      → Placed db project ref
  resolve_value-Placed uuid lower value (some id) h =
      resolve_found-Placed value id _ _ _ refl refl refl h
  resolve_value-Placed uuid lower value none h = elim (Bool-cases (is_main (lower value))) [
    | inl main_line ↦
        main_tip-Placed value (latest_main_line db project none) refl (rw main_line at h)
    | inr other ↦
        resolve_named-Placed value (tag_named project value db.tags)
          (branches_named project value db.branches) refl
          (branches_named-In project value db.branches) (rw other at h)
  ]

-- In a valid ledger whose branch ids are keys and whose tags pin checkpoints of their own project, a
-- ref that resolves, by its id, by an alias of the main line or by the name of a tag or a branch,
-- leads to a checkpoint of the project that was asked.
pub resolve_ref-Placed :
    (uuid : Text → Option ℕ) (lower : Text → Text) (db : Db) (project : ℕ) (raw : Text)
    {ref : ResolvedRef}
    → IsValid db
    → IsKeyed db
    → resolve_ref uuid lower db project raw ≡ ok ref
    → Placed db project ref
unfolding resolve_ref
resolve_ref-Placed uuid lower db project raw {ref} valid keyed h =
    elim (Bool-cases (text_eq (strip raw) [])) [
      | inl empty ↦ (let bad : err bad_request ≡ ok ref = rw empty at h in cc)
      | inr given ↦
          resolve_value-Placed db project valid keyed uuid lower (strip raw) (uuid (strip raw))
            (rw given at h)
    ]
