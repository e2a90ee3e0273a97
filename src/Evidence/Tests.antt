-- ===== src/Evidence/Tests.antt =====
-- Groundings of small claims, and the theorems of the ladder at concrete inputs.
use opentheory.Base.{
  ℕ, ◌≤◌, ◌≡◌, refl, ◌↔◌, inl, inr, true, false, Option, none, some, [], ◌∷◌, length, In,
}
use opentheory.Base.Text.{Text, codes}
use opentheory.Evidence.Grading.{
  EvidenceGrade, A, B, C, D, ResultStatus, matrix, grade_for, strongest, instruments_above,
  outranks, instruments_reaching, raise_path, grading_problems,
}
use opentheory.Evidence.Ladder.{raise_path_iff, reaches, instruments_reaching_iff}
use opentheory.Evidence.Strongest.{AtMost, strongest_iff}
use opentheory.Evidence.Grounding.{
  string, grade_of_link, is_live_pin, proven, refuted, grade_c, is_dominating, headline, Link,
  ClaimGrounding, tally_links, grounding_of, compute_grounding,
}
use opentheory.Evidence.Sides.{Gives, Some}
use opentheory.Evidence.Headlines.{
  undecided_link, undecided_contributes_nothing, refuted_iff, grounding_same_members,
}
use opentheory.Evidence.Yield.{ClaimYield, movement, compute_yield, diff_claims, record_claim}
use opentheory.Evidence.Counts.{moved_in}
use opentheory.Evidence.Reports.{Reports, compute_yield_iff}

abbrev run_link : Text → Text → Text → Link
run_link kind instrument status = record {
  relation_kind = kind;
  source_type = codes "tool";
  metadata = some (record { instrument = some (string instrument); status = some (string status) });
}

abbrev proof : Link
proof = run_link (codes "support") (codes "z3.prove") (codes "result")

abbrev witness : Link
witness = run_link (codes "weaken") (codes "counterexample.search") (codes "refuted")

abbrev sweep : Link
sweep = run_link (codes "support") (codes "counterexample.search") (codes "result")

proof_reads : (compute_grounding (proof ∷ [])).headline ≡ proven
unfolding compute_grounding tally_links grounding_of headline strongest grade_of_link is_live_pin
    grade_for matrix
proof_reads = refl

witness_reads : (compute_grounding (proof ∷ witness ∷ [])).headline ≡ refuted
unfolding compute_grounding tally_links grounding_of headline strongest grade_of_link is_live_pin
    grade_for matrix
witness_reads = refl

-- The raise path of a proven claim is empty.
raise_path_of_proof : raise_path (some A) ≡ []
unfolding raise_path instruments_above matrix
raise_path_of_proof = refl

every_row_complete :
    (grading_problems (codes "plot.points") ≡ [])
    × (length (grading_problems (codes "none.such")) ≡ 1)
unfolding grading_problems matrix
every_row_complete = (refl, refl)

raise_path_iff_example :
    In (codes "z3.prove") (raise_path (some B))
    ↔ ((status : ResultStatus) × (outranks (grade_for (codes "z3.prove") status) (some B) ≡ true))
raise_path_iff_example = raise_path_iff (some B) (codes "z3.prove")

instruments_reaching_iff_example :
    In (codes "calc.eval") (instruments_reaching B)
    ↔ ((status : ResultStatus) × (reaches B (grade_for (codes "calc.eval") status) ≡ true))
instruments_reaching_iff_example = instruments_reaching_iff B (codes "calc.eval")

strongest_iff_example :
    (strongest (D ∷ B ∷ C ∷ []) ≡ some B) ↔ (In B (D ∷ B ∷ C ∷ []) × AtMost B (D ∷ B ∷ C ∷ []))
strongest_iff_example = strongest_iff (D ∷ B ∷ C ∷ []) B

undecided_contributes_nothing_example :
    compute_grounding (
      proof ∷ undecided_link (codes "support") (codes "oeis") 111 (codes "eis.search") ∷ sweep ∷ [])
    ≡ compute_grounding (proof ∷ sweep ∷ [])
undecided_contributes_nothing_example =
    undecided_contributes_nothing (proof ∷ []) (sweep ∷ []) (codes "support") (codes "oeis") 111
      (codes "eis.search")

refuted_iff_example : ((compute_grounding (proof ∷ witness ∷ [])).headline ≡ refuted) ↔ (
    (grade : EvidenceGrade) × Some (Gives (codes "weaken") grade) (proof ∷ witness ∷ [])
    × (is_dominating (some grade) ≡ true))
refuted_iff_example = refuted_iff (proof ∷ witness ∷ [])

swap_members : (link : Link) → In link (proof ∷ witness ∷ []) ↔ In link (witness ∷ proof ∷ [])
swap_members link = (flip proof witness, flip witness proof)
  where
    flip : (one two : Link) → In link (one ∷ two ∷ []) → In link (two ∷ one ∷ [])
    flip one two (inl e) = inr (inl e)
    flip one two (inr (inl e)) = inl e
    flip one two (inr (inr bad)) = elim bad [ ]

grounding_same_members_example :
    compute_grounding (proof ∷ witness ∷ []) ≡ compute_grounding (witness ∷ proof ∷ [])
grounding_same_members_example =
    grounding_same_members (proof ∷ witness ∷ []) (witness ∷ proof ∷ []) swap_members

abbrev nothing_yet : ℕ → Option ClaimGrounding
nothing_yet id = none

abbrev all_swept : ℕ → Option ClaimGrounding
all_swept id = some (record { support = some C; counter = none; cited = false; headline = grade_c })

compute_yield_iff_example :
    let yield = compute_yield (4 ∷ 5 ∷ []) nothing_yet all_swept in
    ((e : ClaimYield)
      → In e yield.changed ↔ (In e.claim_id (4 ∷ 5 ∷ []) × Reports nothing_yet all_swept e))
    × (yield.measured ≡ 2)
    × (yield.moved ≡ moved_in yield.changed)
    × (length yield.changed ≤ 2)
compute_yield_iff_example = compute_yield_iff (4 ∷ 5 ∷ []) nothing_yet all_swept

sweeps_raise : (compute_yield (4 ∷ 5 ∷ []) nothing_yet all_swept).moved ≡ 2
unfolding compute_yield diff_claims record_claim movement
sweeps_raise = refl
