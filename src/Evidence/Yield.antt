-- ===== src/Evidence/Yield.antt =====
-- backend/app/services/grounding.py: what a pass moved, and the counts of a thread or a project.
use opentheory.Base.{
  ℕ, ◌+◌, Bool, true, false, not, ◌&&◌, ◌||◌, Option, none, some, List, [], ◌∷◌, ◌++◌, ◌==◌,
  if◌then◌else◌, length,
}
use opentheory.Evidence.Grading.{outranks}
use opentheory.Evidence.Grounding.{
  GroundingHeadline, proven, refuted, grade_b, grade_c, grade_d, cited, ungrounded, headline_eq,
  ClaimGrounding,
}

pub data ClaimMovement : Type 0 where
  settled raised unchanged : ClaimMovement

-- `SETTLED_HEADLINES`
abbrev pub is_settled : GroundingHeadline → Bool
is_settled proven = true
is_settled refuted = true
is_settled _ = false

-- `_movement`
unfoldable pub movement : ClaimGrounding → ClaimGrounding → ClaimMovement
movement before after =
    if is_settled after.headline && not (headline_eq before.headline after.headline)
    then settled
    else if outranks after.support before.support
    then raised
    else unchanged

abbrev pub is_unchanged : ClaimMovement → Bool
is_unchanged unchanged = true
is_unchanged _ = false

pub record ClaimYield : Type 0 where
  pub claim_id : ℕ
  pub before : GroundingHeadline
  pub after : GroundingHeadline
  pub movement : ClaimMovement

pub record PassYield : Type 0 where
  pub measured : ℕ
  pub moved : ℕ
  pub changed : List ClaimYield

abbrev pub empty_grounding : ClaimGrounding
empty_grounding = record { support = none; counter = none; cited = false; headline = ungrounded }

-- `snapshot.get(claim_id) or empty`
abbrev pub or_ungrounded : Option ClaimGrounding → ClaimGrounding
or_ungrounded none = empty_grounding
or_ungrounded (some grounding) = grounding

-- The two variables of the loop.
pub record Diff : Type 0 where
  pub moved : ℕ
  pub changed : List ClaimYield

unfoldable pub record_claim : ℕ → ClaimGrounding → ClaimGrounding → ClaimMovement → Diff → Diff
record_claim id was now how diff = record {
  moved = if not (is_unchanged how) then diff.moved + 1 else diff.moved;
  changed =
      if not (is_unchanged how) || not (headline_eq was.headline now.headline)
      then diff.changed
        ++ (record { claim_id = id; before = was.headline; after = now.headline; movement = how }
            ∷ [])
      else diff.changed;
}

unfoldable pub diff_claims :
    (ℕ → Option ClaimGrounding) → (ℕ → Option ClaimGrounding) → List ℕ → Diff → Diff
diff_claims before after [] diff = diff
diff_claims before after (id ∷ ids) diff =
    let was = or_ungrounded (before id) in
    let now = or_ungrounded (after id) in
    diff_claims before after ids (record_claim id was now (movement was now) diff)

unfoldable pub compute_yield :
    List ℕ → (ℕ → Option ClaimGrounding) → (ℕ → Option ClaimGrounding) → PassYield
compute_yield ids before after =
    let diff = diff_claims before after ids (record { moved = 0; changed = [] }) in
    record { measured = length ids; moved = diff.moved; changed = diff.changed }

-- A `Counter`, by the order of first occurrence.
abbrev pub Counter : Type 0
Counter = List (GroundingHeadline × ℕ)

abbrev pub bump : GroundingHeadline → Counter → Counter
bump headline [] = (headline, 1) ∷ []
bump headline ((key, n) ∷ counts) =
    if headline_eq key headline then (key, n + 1) ∷ counts else (key, n) ∷ bump headline counts

abbrev pub count_in : Counter → GroundingHeadline → ℕ
count_in [] headline = 0
count_in ((key, n) ∷ counts) headline =
    if headline_eq key headline then n else count_in counts headline

abbrev pub sum_values : Counter → ℕ
sum_values [] = 0
sum_values ((_, n) ∷ counts) = n + sum_values counts

abbrev pub count_headlines : List GroundingHeadline → Counter → Counter
count_headlines [] counts = counts
count_headlines (headline ∷ headlines) counts = count_headlines headlines (bump headline counts)

-- `GROUNDING_HEADLINE_ORDER`
abbrev pub headline_order : List GroundingHeadline
headline_order = proven ∷ refuted ∷ grade_b ∷ grade_c ∷ grade_d ∷ cited ∷ ungrounded ∷ []

abbrev pub buckets_in : Counter → List GroundingHeadline → Counter
buckets_in counts [] = []
buckets_in counts (headline ∷ order) =
    let rest = buckets_in counts order in
    if count_in counts headline == 0 then rest else (headline, count_in counts headline) ∷ rest

pub record GroundingRollup : Type 0 where
  pub buckets : Counter
  pub total : ℕ

unfoldable pub compute_rollup : List GroundingHeadline → GroundingRollup
compute_rollup headlines =
    let counts = count_headlines headlines [] in
    record { buckets = buckets_in counts headline_order; total = sum_values counts }
