-- ===== src/Ledger/Immutable.antt =====
-- About rows once written and lines once sealed, along histories of calls.
use opentheory.Base.{
  ℕ, ◌≡◌, refl, sym, ap, ◌∙◌, ◌≢◌, inl, inr, true, false, not, Option, none, some, List, [], ◌∷◌,
  ◌++◌, ◌==◌, All, All-append,
}
use opentheory.Base.Http.{bad_request, ok, raise_if, bind_ok, raise_if_ok}
use mathlib.Core.Path.{subst}
use opentheory.Ledger.Store.{Actor, is_open, Branch, Checkpoint, Db, find_branch}
use opentheory.Ledger.Checkpoints.{check_branch, branch_open}
use opentheory.Ledger.Advance.{BranchStep, Grows, Advance}
use opentheory.Ledger.Operations.{Op, run, run_induction}
use opentheory.Ledger.Validity.{IsValid, advance-IsValid}

-- The same branch, at most with another status.
abbrev pub Restatused : Option Branch → Option Branch → Type 0
Restatused none _ = Unit
Restatused (some old) none = ⊥
Restatused (some old) (some new) = new ≡ record old { status = new.status }

pub record Keeps (db last : Db) : Type 0 where
  pub checkpoints_grow : Grows db.checkpoints last.checkpoints
  pub contributions_grow : Grows db.contributions last.contributions
  pub refs_grow : Grows db.refs last.refs
  pub tags_grow : Grows db.tags last.tags
  pub branches_keep :
      (id : ℕ) → Restatused (find_branch id db.branches) (find_branch id last.branches)

append_assoc : {A : Type 0} (xs ys zs : List A) → xs ++ (ys ++ zs) ≡ (xs ++ ys) ++ zs
append_assoc [] ys zs = refl
append_assoc (x ∷ xs) ys zs = ap (λ rest. x ∷ rest) (append_assoc xs ys zs)

Grows-trans : {A : Type 0} (xs ys zs : List A) → Grows xs ys → Grows ys zs → Grows xs zs
Grows-trans xs ys zs (before, e) (after, e') =
    (after ++ before, e' ∙ (ap (λ rest. after ++ rest) e ∙ append_assoc after before xs))

Restatused-refl : (o : Option Branch) → Restatused o o
Restatused-refl none = tt
Restatused-refl (some b) = refl

Restatused-trans :
    (db : Db) (o o' o'' : Option Branch) → BranchStep db o o' → Restatused o' o'' → Restatused o o''
Restatused-trans db none o' o'' step rest = tt
Restatused-trans db (some old) none o'' step rest = elim step [ ]
Restatused-trans db (some old) (some mid) none step rest = elim rest [ ]
Restatused-trans db (some old) (some mid) (some new) (inl same) rest =
    subst (λ (b : Branch). new ≡ record b { status = new.status }) same rest
Restatused-trans db (some old) (some mid) (some new) (inr sealed) rest =
    rest ∙ ap (λ (b : Branch). record b { status = new.status }) sealed.2

-- Along any history the checkpoints, contributions, references and tags of a valid ledger only get
-- new rows in front, and its branches keep all their columns but the status.
pub run-Keeps : (db : Db) (ops : List (Actor × Op)) → IsValid db → Keeps db (run db ops)
run-Keeps db ops valid =
    (run_induction IsValid Keeps (λ db v. v.ids_used)
      (λ before db' v adv. advance-IsValid before db' adv v)
      (λ before. record {
        checkpoints_grow = ([], refl);
        contributions_grow = ([], refl);
        refs_grow = ([], refl);
        tags_grow = ([], refl);
        branches_keep = λ id. Restatused-refl (find_branch id before.branches);
      })
      (λ before db' last v adv rest. record {
        checkpoints_grow = Grows-trans _ _ _ (adv.row ∷ [], adv.written) rest.checkpoints_grow;
        contributions_grow =
            Grows-trans _ _ _ (adv.credit ∷ [], adv.credited) rest.contributions_grow;
        refs_grow = Grows-trans _ _ _ adv.refs_grow rest.refs_grow;
        tags_grow = Grows-trans _ _ _ adv.tags_grow rest.tags_grow;
        branches_keep = λ id.
            Restatused-trans before (find_branch id before.branches) _ _ (adv.branches_step id)
              (rest.branches_keep id);
      })
      db ops valid).1

-- What stays of a sealed line: its row, and that no new checkpoint stands on it.
abbrev pub StaysSealed : Db → Db → Type 0
StaysSealed db last =
    (id : ℕ) (b : Branch)
    → find_branch id db.branches ≡ some b
    → is_open b.status ≡ false
    → (find_branch id last.branches ≡ some b)
      × ((new : List Checkpoint) × (last.checkpoints ≡ new ++ db.checkpoints)
          × All (λ (row : Checkpoint). row.branch_id ≢ some id) new)

sealed_step :
    (db : Db) (b : Branch) (o o' : Option Branch)
    → BranchStep db o o'
    → o ≡ some b
    → is_open b.status ≡ false
    → o' ≡ some b
sealed_step db b none o' step e shut = cc
sealed_step db b (some old) none step e shut = elim step [ ]
sealed_step db b (some old) (some new) (inl same) e shut = cc
sealed_step db b (some old) (some new) (inr sealed) e shut =
    let same : old ≡ b = cc in
    let bad : true ≡ false = sym sealed.0 ∙ (ap (λ (r : Branch). is_open r.status) same ∙ shut) in
    cc

-- No call writes a checkpoint onto a sealed line.
not_on_sealed :
    (db : Db) (p id : ℕ) (b : Branch) (line : Option ℕ)
    → find_branch id db.branches ≡ some b
    → is_open b.status ≡ false
    → check_branch db p line ≡ ok tt
    → line ≢ some id
not_on_sealed db p id b line found shut open_now e =
    let on : branch_open p (some b) ≡ ok tt =
      subst (λ o. branch_open p o ≡ ok tt) found
        (subst (λ l. check_branch db p l ≡ ok tt) e open_now) in
    let c1 = bind_ok (raise_if (not (b.project_id == p)) bad_request) _ on in
    let bad : not (is_open b.status) ≡ false = raise_if_ok _ bad_request c1.2 in
    (let t : true ≡ false = sym (ap not shut) ∙ bad in cc)

sealed_trans : (db db' last : Db) → Advance db db' → StaysSealed db' last → StaysSealed db last
sealed_trans db db' last adv rest id b found shut =
    let kept = sealed_step db b _ _ (adv.branches_step id) found shut in
    let after = rest id b kept shut in
    (
      after.0,
      (
        after.1.0 ++ (adv.row ∷ []),
        after.1.1
            ∙ (ap (λ rows. after.1.0 ++ rows) adv.written
                ∙ append_assoc after.1.0 (adv.row ∷ []) db.checkpoints),
        All-append _ after.1.0 (adv.row ∷ []) after.1.2 (
          not_on_sealed db' adv.row.project_id id b adv.row.branch_id kept shut adv.line_open,
          tt,
        ),
      ),
    )

run_sealed : (db : Db) (ops : List (Actor × Op)) → IsValid db → StaysSealed db (run db ops)
run_sealed db ops valid =
    (run_induction IsValid StaysSealed (λ db v. v.ids_used)
      (λ before db' v adv. advance-IsValid before db' adv v)
      (λ before id b found shut. (found, ([], refl, tt)))
      (λ before db' last v adv rest. sealed_trans before db' last adv rest) db ops valid).1

-- A branch of a valid ledger that is merged, closed or a dead end stays exactly as it is along any
-- history, and none of the checkpoints that the history adds stands on it.
pub sealed_line_stays :
    (db : Db) (ops : List (Actor × Op)) (id : ℕ) (b : Branch)
    → IsValid db
    → find_branch id db.branches ≡ some b
    → is_open b.status ≡ false
    → (find_branch id (run db ops).branches ≡ some b)
      × ((new : List Checkpoint) × ((run db ops).checkpoints ≡ new ++ db.checkpoints)
          × All (λ (row : Checkpoint). row.branch_id ≢ some id) new)
sealed_line_stays db ops id b valid found shut = run_sealed db ops valid id b found shut
