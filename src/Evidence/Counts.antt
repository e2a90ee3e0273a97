-- ===== src/Evidence/Counts.antt =====
-- About the counts of a pass and of a rollup (backend/app/services/grounding.py).
use opentheory.Base.{
  ℕ, ◌+◌, ◌≤◌, ◌<◌, ◌≡◌, refl, sym, ap, ◌∙◌, inl, inr, false, Option, List, [], ◌∷◌, ◌++◌, arith,
  ◌==◌, ==_iff, if◌then◌else◌, Bool-cases, length, length-append, All,
}
use opentheory.Evidence.Grounding.{
  GroundingHeadline, proven, refuted, grade_b, grade_c, grade_d, cited, ungrounded, position,
  headline_eq, ClaimGrounding,
}
use opentheory.Evidence.Yield.{
  ClaimMovement, is_unchanged, movement, ClaimYield, or_ungrounded, Diff, record_claim, diff_claims,
  compute_yield, Counter, bump, count_in, sum_values, count_headlines, headline_order, buckets_in,
  compute_rollup,
}

-- How many of the recorded claims moved.
abbrev pub moved_in : List ClaimYield → ℕ
moved_in [] = 0
moved_in (claim ∷ claims) = (if is_unchanged claim.movement then 0 else 1) + moved_in claims

moved_in-append : (xs ys : List ClaimYield) → moved_in (xs ++ ys) ≡ moved_in xs + moved_in ys
moved_in-append [] ys = omega arith
moved_in-append (x ∷ xs) ys = omega (arith, moved_in-append xs ys)

record_claim_lem :
    (id : ℕ) (was now : ClaimGrounding) (how : ClaimMovement) (diff : Diff)
    → moved_in diff.changed ≡ diff.moved
    → (moved_in (record_claim id was now how diff).changed
        ≡ (record_claim id was now how diff).moved)
      × (length (record_claim id was now how diff).changed ≤ length diff.changed + 1)
unfolding record_claim
record_claim_lem id was now how diff h = elim (Bool-cases (is_unchanged how)) [
  | inl still ↦ elim (Bool-cases (headline_eq was.headline now.headline)) [
    | inl same ↦ rw (still, same) (h, omega arith)
    | inr other ↦
        let entry : ClaimYield = record {
          claim_id = id;
          before = was.headline;
          after = now.headline;
          movement = how;
        } in
        let counted = moved_in-append diff.changed (entry ∷ []) in
        let counted' : moved_in (diff.changed ++ (entry ∷ [])) ≡ moved_in diff.changed + (0 + 0) =
          rw still at counted in
        rw (still, other)
          (counted' ∙ omega arith, omega (arith, length-append diff.changed (entry ∷ [])))
  ]
  | inr moved ↦
      let entry : ClaimYield = record {
        claim_id = id;
        before = was.headline;
        after = now.headline;
        movement = how;
      } in
      let counted = moved_in-append diff.changed (entry ∷ []) in
      let counted' : moved_in (diff.changed ++ (entry ∷ [])) ≡ moved_in diff.changed + (1 + 0) =
        rw moved at counted in
      rw moved (counted' ∙ omega arith, omega (arith, length-append diff.changed (entry ∷ [])))
]

diff_claims_lem :
    (before after : ℕ → Option ClaimGrounding) (ids : List ℕ) (diff : Diff)
    → moved_in diff.changed ≡ diff.moved
    → (moved_in (diff_claims before after ids diff).changed
        ≡ (diff_claims before after ids diff).moved)
      × (length (diff_claims before after ids diff).changed ≤ length diff.changed + length ids)
unfolding diff_claims
diff_claims_lem before after [] diff h = (h, omega arith)
diff_claims_lem before after (id ∷ ids) diff h =
    let was = or_ungrounded (before id) in
    let now = or_ungrounded (after id) in
    let step = record_claim_lem id was now (movement was now) diff h in
    let rest =
      diff_claims_lem before after ids (record_claim id was now (movement was now) diff) step.0 in
    let one : length (record_claim id was now (movement was now) diff).changed
        ≤ length diff.changed + 1 =
      step.1 in
    let all : length
          (diff_claims before after ids (record_claim id was now (movement was now) diff)).changed
        ≤ length (record_claim id was now (movement was now) diff).changed + length ids =
      rest.1 in
    (rest.0, omega arith)

-- Of the claims that a pass measured it records no more than there are, and it counts as moved
-- exactly the recorded ones whose movement is not `unchanged`.
pub compute_yield_counts :
    (ids : List ℕ) (before after : ℕ → Option ClaimGrounding)
    → (moved_in (compute_yield ids before after).changed ≡ (compute_yield ids before after).moved)
      × (length (compute_yield ids before after).changed
          ≤ (compute_yield ids before after).measured)
unfolding compute_yield
compute_yield_counts ids before after =
    let counted = diff_claims_lem before after ids (record { moved = 0; changed = [] }) refl in
    (counted.0, omega (arith, counted.1))

abbrev hit : GroundingHeadline → GroundingHeadline → ℕ
hit headline other = if headline_eq headline other then 1 else 0

count_in-bump :
    (headline other : GroundingHeadline) (counts : Counter)
    → count_in (bump headline counts) other ≡ count_in counts other + hit headline other
count_in-bump headline other [] = omega arith
count_in-bump headline other ((key, n) ∷ counts) = elim (Bool-cases (headline_eq key headline)) [
  | inl here ↦
      let same : headline_eq key other ≡ headline_eq headline other =
        ap (λ k. k == position other) ((==_iff (position key) (position headline)).0 here) in
      elim (Bool-cases (headline_eq headline other)) [
        | inl e ↦ rw (here, same, e) refl
        | inr e ↦ rw (here, same, e) (omega arith)
      ]
  | inr there ↦ elim (Bool-cases (headline_eq key other)) [
    | inl found ↦
        let apart : headline_eq headline other ≡ false = ground arith in
        rw (there, found, apart) (omega arith)
    | inr missed ↦ rw (there, missed) (count_in-bump headline other counts)
  ]
]

sum_values-bump :
    (headline : GroundingHeadline) (counts : Counter)
    → sum_values (bump headline counts) ≡ sum_values counts + 1
sum_values-bump headline [] = refl
sum_values-bump headline ((key, n) ∷ counts) = elim (Bool-cases (headline_eq key headline)) [
  | inl here ↦ rw here (omega arith)
  | inr there ↦ (let rest = sum_values-bump headline counts in rw there (omega arith))
]

-- The counts of the headlines in a list of them, summed.
abbrev sum_over : Counter → List GroundingHeadline → ℕ
sum_over counts [] = 0
sum_over counts (headline ∷ order) = count_in counts headline + sum_over counts order

abbrev hits : GroundingHeadline → List GroundingHeadline → ℕ
hits headline [] = 0
hits headline (other ∷ order) = hit headline other + hits headline order

sum_over-bump :
    (headline : GroundingHeadline) (counts : Counter) (order : List GroundingHeadline)
    → sum_over (bump headline counts) order ≡ sum_over counts order + hits headline order
sum_over-bump headline counts [] = refl
sum_over-bump headline counts (other ∷ order) =
    let one = count_in-bump headline other counts in
    let rest = sum_over-bump headline counts order in omega arith

hits_once : (headline : GroundingHeadline) → hits headline headline_order ≡ 1
hits_once proven = refl
hits_once refuted = refl
hits_once grade_b = refl
hits_once grade_c = refl
hits_once grade_d = refl
hits_once cited = refl
hits_once ungrounded = refl

count_headlines_lem :
    (headlines : List GroundingHeadline) (counts : Counter)
    → (sum_over (count_headlines headlines counts) headline_order
        ≡ sum_over counts headline_order + length headlines)
      × (sum_values (count_headlines headlines counts) ≡ sum_values counts + length headlines)
count_headlines_lem [] counts = (omega arith, omega arith)
count_headlines_lem (headline ∷ headlines) counts =
    let rest = count_headlines_lem headlines (bump headline counts) in
    let over = rest.0 in
    let values = rest.1 in
    let step = sum_over-bump headline counts headline_order in
    let once = hits_once headline in
    let more = sum_values-bump headline counts in
    (
      over
          ∙ (ap (λ n. n + length headlines)
                (step ∙ ap (λ n. sum_over counts headline_order + n) once)
              ∙ omega arith),
      omega arith,
    )

-- No bucket of the list is empty.
abbrev pub NonEmpty : Counter → Type 0
NonEmpty counts = All (λ (bucket : GroundingHeadline × ℕ). 0 < bucket.1) counts

buckets_in_lem :
    (counts : Counter) (order : List GroundingHeadline)
    → (sum_values (buckets_in counts order) ≡ sum_over counts order)
      × NonEmpty (buckets_in counts order)
buckets_in_lem counts [] = (refl, tt)
buckets_in_lem counts (headline ∷ order) =
    let rest = buckets_in_lem counts order in
    elim (Bool-cases (count_in counts headline == 0)) [
      | inl nothing ↦
          let zero_count : count_in counts headline ≡ 0 =
            (==_iff (count_in counts headline) 0).0 nothing in
          rw nothing (rest.0 ∙ omega arith, rest.1)
      | inr something ↦
          rw something (ap (λ n. count_in counts headline + n) rest.0, (ground arith, rest.1))
    ]

-- A rollup counts every claim once: its total is the number of headlines, its buckets sum to the
-- total, and none of them is empty.
pub compute_rollup_counts :
    (headlines : List GroundingHeadline)
    → ((compute_rollup headlines).total ≡ length headlines)
      × (sum_values (compute_rollup headlines).buckets ≡ (compute_rollup headlines).total)
      × NonEmpty (compute_rollup headlines).buckets
unfolding compute_rollup
compute_rollup_counts headlines =
    let counted = count_headlines_lem headlines [] in
    let buckets = buckets_in_lem (count_headlines headlines []) headline_order in
    (counted.1 ∙ omega arith, buckets.0 ∙ (counted.0 ∙ sym counted.1), buckets.1)
