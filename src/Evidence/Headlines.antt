-- ===== src/Evidence/Headlines.antt =====
-- About the headline of a claim (backend/app/services/grounding.py).
use opentheory.Base.{
  ℕ, ◌≤◌, ◌≡◌, refl, sym, ap, ◌∙◌, ◌↔◌, ◌⊎◌, inl, inr, Bool, true, false, ◌&&◌, Option, none, some,
  List, [], ◌∷◌, ◌++◌, arith, leb, Bool-cases, Option-cases, is_none, In,
}
use opentheory.Base.Text.{Text, codes, text_eq}
use opentheory.Evidence.Grading.{
  EvidenceGrade, A, B, C, D, ResultStatus, undecided, Cells, matrix, rank, max_from, find_row,
  find_cell, cell_or_none, row_grade, grade_for, strongest,
}
use opentheory.Evidence.Strongest.{strongest_iff, strongest_same, AtMost-In}
use opentheory.Evidence.Sides.{Gives, Some, LivePin, support_In, counter_In, pinned_iff}
use opentheory.Evidence.Grounding.{
  string, is_tool, grade_of_link, is_live_pin, refuted, is_dominating, support_headline, headline,
  Link, Tally, count_link, tally_links, no_tally, grounding_of, compute_grounding,
}

abbrev never_graded : ResultStatus → List (Text × Cells) → Bool
never_graded status [] = true
never_graded status ((key, row) ∷ rows) =
    is_none (cell_or_none (find_cell status row)) && never_graded status rows

is_none_lem {ℓ} : {T : Type ℓ} (o : Option T) → is_none o ≡ true → o ≡ none
is_none_lem none h = refl
is_none_lem (some x) h = cc

ungraded :
    (status : ResultStatus) (name : Text) (rows : List (Text × Cells))
    → never_graded status rows ≡ true
    → row_grade status (find_row name rows) ≡ none
ungraded status name [] h = refl
ungraded status name ((key, row) ∷ rows) h =
    elim (Bool-cases (is_none (cell_or_none (find_cell status row)))) [
      | inr graded ↦ (let bad : false ≡ true = rw graded at h in cc)
      | inl none_here ↦ elim (Bool-cases (text_eq key name)) [
        | inl here ↦ rw here (is_none_lem _ none_here)
        | inr there ↦ rw there (ungraded status name rows (rw none_here at h))
      ]
    ]

undecided_ungraded : (name : Text) → grade_for name undecided ≡ none
unfolding grade_for matrix
undecided_ungraded name = ungraded undecided name matrix refl

-- The link of a run of the instrument with code points `c ∷ s` that ended undecided.
abbrev pub undecided_link : Text → Text → ℕ → Text → Link
undecided_link kind source c s = record {
  relation_kind = kind;
  source_type = source;
  metadata =
      some
        (record { instrument = some (string (c ∷ s)); status = some (string (codes "undecided")) });
}

undecided_grade :
    (kind source : Text) (c : ℕ) (s : Text)
    → grade_of_link source (undecided_link kind source c s).metadata ≡ none
unfolding grade_of_link
undecided_grade kind source c s = elim (Bool-cases (is_tool source)) [
  | inl tool ↦ rw tool (undecided_ungraded (c ∷ s))
  | inr pin ↦ rw pin refl
]

undecided_pin :
    (kind source : Text) (c : ℕ) (s : Text)
    → is_live_pin source (undecided_link kind source c s).metadata ≡ false
unfolding is_live_pin
undecided_pin kind source c s = elim (Bool-cases (is_tool source)) [
  | inl tool ↦ rw tool refl
  | inr pin ↦ rw pin refl
]

tally_append :
    (xs ys : List Link) (tally : Tally)
    → tally_links (xs ++ ys) tally ≡ tally_links ys (tally_links xs tally)
unfolding tally_links
tally_append [] ys tally = refl
tally_append (link ∷ xs) ys tally = tally_append xs ys (count_link link tally)

count_undecided :
    (kind source : Text) (c : ℕ) (s : Text) (tally : Tally)
    → count_link (undecided_link kind source c s) tally ≡ tally
count_undecided kind source c s tally =
    rw (undecided_pin kind source c s, undecided_grade kind source c s) refl

-- An undecided run, on whichever side it is linked and between whichever other links, leaves the
-- grounding of a claim as it is without it.
pub undecided_contributes_nothing :
    (xs ys : List Link) (kind source : Text) (c : ℕ) (s : Text)
    → compute_grounding (xs ++ (undecided_link kind source c s ∷ ys)) ≡ compute_grounding (xs ++ ys)
unfolding compute_grounding tally_links
undecided_contributes_nothing xs ys kind source c s = ap grounding_of (
    tally_append xs (undecided_link kind source c s ∷ ys) no_tally
    ∙ (ap (tally_links ys) (count_undecided kind source c s (tally_links xs no_tally))
        ∙ sym (tally_append xs ys no_tally)))

dominating_rank : (grade : EvidenceGrade) → is_dominating (some grade) ≡ leb 3 (rank grade)
dominating_rank A = refl
dominating_rank B = refl
dominating_rank C = refl
dominating_rank D = refl

dominated_by :
    (grades : List EvidenceGrade) (grade : EvidenceGrade)
    → In grade grades
    → is_dominating (some grade) ≡ true
    → is_dominating (strongest grades) ≡ true
unfolding strongest
dominated_by [] grade there h = elim there [ ]
dominated_by (first ∷ rest) grade there h =
    let top = max_from first rest in
    let known = (strongest_iff (first ∷ rest) top).0 refl in
    let above : rank grade ≤ rank top = AtMost-In top grade (first ∷ rest) known.1 there in
    let low : leb 3 (rank grade) ≡ true = sym (dominating_rank grade) ∙ h in
    let high : leb 3 (rank top) ≡ true = ground arith in dominating_rank top ∙ high

dominating_of :
    (grades : List EvidenceGrade)
    → is_dominating (strongest grades) ≡ true
    → (grade : EvidenceGrade) × In grade grades × (is_dominating (some grade) ≡ true)
dominating_of grades h = elim (Option-cases (strongest grades)) [
  | inl missing ↦ (let bad : false ≡ true = sym (ap is_dominating missing) ∙ h in cc)
  | inr (top, found) ↦
      (top, ((strongest_iff grades top).0 found).0, sym (ap is_dominating found) ∙ h)
]

not_refuted :
    (support : Option EvidenceGrade) (pinned : Bool) → support_headline support pinned ≡ refuted → ⊥
not_refuted (some A) pinned h = cc
not_refuted (some B) pinned h = cc
not_refuted (some C) pinned h = cc
not_refuted (some D) pinned h = cc
not_refuted none true h = cc
not_refuted none false h = cc

headline_refuted_iff :
    (support counter : Option EvidenceGrade) (pinned : Bool)
    → (headline support counter pinned ≡ refuted) ↔ (is_dominating counter ≡ true)
unfolding headline
headline_refuted_iff support counter pinned = elim (Bool-cases (is_dominating counter)) [
  | inl dominating ↦ rw dominating (λ h. refl, λ h. refl)
  | inr weak ↦ rw weak (λ h. elim (not_refuted support pinned h) [ ], λ h. cc)
]

-- A claim reads refuted exactly when some link weakens it with evidence of grade A or B, whatever
-- supports it.
pub refuted_iff :
    (links : List Link)
    → ((compute_grounding links).headline ≡ refuted) ↔ (
        (grade : EvidenceGrade) × Some (Gives (codes "weaken") grade) links
        × (is_dominating (some grade) ≡ true))
unfolding compute_grounding grounding_of
refuted_iff links =
    let tally = tally_links links no_tally in
    let top =
      headline_refuted_iff (strongest tally.support_grades) (strongest tally.counter_grades)
        tally.pinned in
    (
      λ h.
          (let found = dominating_of tally.counter_grades (top.0 h) in
            (
              found.0,
              from_links links found.0 ((counter_In links no_tally found.0).0 found.1),
              found.2,
            )),
      λ (grade, given, dominating). top.1 (
          dominated_by tally.counter_grades grade ((counter_In links no_tally grade).1 (inr given))
            dominating),
    )
  where
    from_links :
        (all_links : List Link) (grade : EvidenceGrade)
        → ⊥ ⊎ Some (Gives (codes "weaken") grade) all_links
        → Some (Gives (codes "weaken") grade) all_links
    from_links all_links grade (inl bad) = elim bad [ ]
    from_links all_links grade (inr some_link) = some_link

Some-same :
    (P : Link → Type 0) (links links' : List Link)
    → ((link : Link) → In link links → In link links')
    → Some P links
    → Some P links'
Some-same P links links' more (link, there, h) = (link, more link there, h)

iff_true : (a b : Bool) → (a ≡ true → b ≡ true) → (b ≡ true → a ≡ true) → a ≡ b
iff_true true b to from = sym (to refl)
iff_true false true to from = from refl
iff_true false false to from = refl

given : {P Q : Type 0} → ⊥ ⊎ P → (P → Q) → ⊥ ⊎ Q
given (inl bad) f = elim bad [ ]
given (inr p) f = inr (f p)

pinned_given : {P Q : Type 0} → (false ≡ true) ⊎ P → (P → Q) → (false ≡ true) ⊎ Q
pinned_given (inl e) f = inl e
pinned_given (inr p) f = inr (f p)

-- Links with the same members, in any order and with any repetitions, give a claim the same
-- grounding.
pub grounding_same_members :
    (links links' : List Link)
    → ((link : Link) → In link links ↔ In link links')
    → compute_grounding links ≡ compute_grounding links'
unfolding compute_grounding grounding_of
grounding_same_members links links' same =
    let there = λ (link : Link). (same link).0 in
    let back = λ (link : Link). (same link).1 in
    let support : strongest (tally_links links no_tally).support_grades
        ≡ strongest (tally_links links' no_tally).support_grades =
      strongest_same _ _ (λ grade. (
        λ h.
            (support_In links' no_tally grade).1
              (given ((support_In links no_tally grade).0 h) (Some-same _ links links' there)),
        λ h.
            (support_In links no_tally grade).1
              (given ((support_In links' no_tally grade).0 h) (Some-same _ links' links back)),
      )) in
    let counter : strongest (tally_links links no_tally).counter_grades
        ≡ strongest (tally_links links' no_tally).counter_grades =
      strongest_same _ _ (λ grade. (
        λ h.
            (counter_In links' no_tally grade).1
              (given ((counter_In links no_tally grade).0 h) (Some-same _ links links' there)),
        λ h.
            (counter_In links no_tally grade).1
              (given ((counter_In links' no_tally grade).0 h) (Some-same _ links' links back)),
      )) in
    let pin : (tally_links links no_tally).pinned ≡ (tally_links links' no_tally).pinned =
      iff_true _ _
        (λ h.
          (pinned_iff links' no_tally).1
            (pinned_given ((pinned_iff links no_tally).0 h) (Some-same LivePin links links' there)))
        (λ h. (pinned_iff links no_tally).1 (
          pinned_given ((pinned_iff links' no_tally).0 h) (Some-same LivePin links' links back))) in
    rw (support, counter, pin) refl
