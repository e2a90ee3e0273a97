-- ===== src/Evidence/Ladder.antt =====
-- About the ladder read backwards: `raise_path` and `instruments_reaching` (grading.py).
use opentheory.Base.{
  ℕ, ◌-◌, ◌≡◌, refl, sym, ap, ◌∙◌, ◌↔◌, inl, inr, Bool, true, false, ◌&&◌, ◌||◌, Option, none, some,
  List, [], ◌∷◌, arith, ltb, leb, ◌==◌, ==_iff, Bool-cases, In,
}
use opentheory.Base.Text.{Text, text_eq, text_le}
use opentheory.Evidence.Grading.{
  EvidenceGrade, A, B, C, D, ResultStatus, result, refuted, undecided, status_eq, Cells, matrix,
  rank, find_row, find_cell, cell_or_none, row_grade, grade_for, ranked_above, any_above,
  names_above, insert_text, sort_texts, instruments_above, outranks, instruments_reaching,
  rank_or_zero, raise_path,
}

pub text_eq_sound : (s t : Text) → text_eq s t ≡ true → s ≡ t
text_eq_sound [] [] h = refl
text_eq_sound [] (d ∷ t) h = cc
text_eq_sound (c ∷ s) [] h = cc
text_eq_sound (c ∷ s) (d ∷ t) h = elim (Bool-cases (c == d)) [
  | inl here ↦
      let e : c ≡ d = (==_iff c d).0 here in
      let rest : s ≡ t = text_eq_sound s t (rw here at h) in cc
  | inr there ↦ (let bad : false ≡ true = rw there at h in cc)
]

insert_text-In :
    (x name : Text) (names : List Text) → In x (name ∷ names) → In x (insert_text name names)
insert_text-In x name [] h = h
insert_text-In x name (first ∷ rest) h = elim (Bool-cases (text_le name first)) [
  | inl before ↦ rw before h
  | inr after ↦ rw after (later h (λ x'. insert_text-In x' name rest))
]
  where
    later :
        In x (name ∷ first ∷ rest)
        → ((x' : Text) → In x' (name ∷ rest) → In x' (insert_text name rest))
        → In x (first ∷ insert_text name rest)
    later (inl e) more = inr (more x (inl e))
    later (inr (inl e)) more = inl e
    later (inr (inr there)) more = inr (more x (inr there))

sort_texts-In : (x : Text) (names : List Text) → In x names → In x (sort_texts names)
sort_texts-In x [] h = h
sort_texts-In x (name ∷ names) (inl e) = insert_text-In x name (sort_texts names) (inl e)
sort_texts-In x (name ∷ names) (inr h) =
    insert_text-In x name (sort_texts names) (inr (sort_texts-In x names h))

-- A cell that is read is above the floor only if the row has one above it.
any_above_of_cell :
    (floor : ℕ) (status : ResultStatus) (row : Cells)
    → ranked_above floor (cell_or_none (find_cell status row)) ≡ true
    → any_above floor row ≡ true
any_above_of_cell floor status [] h = cc
any_above_of_cell floor status ((key, cell) ∷ row) h = elim (Bool-cases (status_eq key status)) [
  | inl here ↦ (let e : ranked_above floor cell ≡ true = rw here at h in rw e refl)
  | inr there ↦ elim (Bool-cases (ranked_above floor cell)) [
    | inl e ↦ rw e refl
    | inr e ↦ rw e (any_above_of_cell floor status row (rw there at h))
  ]
]

names_above_of_grade :
    (floor : ℕ) (name : Text) (status : ResultStatus) (rows : List (Text × Cells))
    → ranked_above floor (row_grade status (find_row name rows)) ≡ true
    → In name (names_above floor rows)
names_above_of_grade floor name status [] h = cc
names_above_of_grade floor name status ((key, row) ∷ rows) h =
    elim (Bool-cases (text_eq key name)) [
      | inl here ↦
          let e : any_above floor row ≡ true = any_above_of_cell floor status row (rw here at h) in
          rw e (inl (text_eq_sound key name here))
      | inr there ↦
          let rest : In name (names_above floor rows) =
            names_above_of_grade floor name status rows (rw there at h) in
          elim (Bool-cases (any_above floor row)) [ inl e ↦ rw e (inr rest) | inr e ↦ rw e rest ]
    ]

-- Whether some run of the instrument can earn a grade above the floor.
abbrev tops : ℕ → Text → Bool
tops floor name =
    ranked_above floor (grade_for name result)
    || (ranked_above floor (grade_for name refuted)
        || ranked_above floor (grade_for name undecided))

abbrev all_true : (Text → Bool) → List Text → Bool
all_true test [] = true
all_true test (name ∷ names) = test name && all_true test names

all_true-In :
    (test : Text → Bool) (names : List Text) (x : Text)
    → all_true test names ≡ true
    → In x names
    → test x ≡ true
all_true-In test [] x h there = elim there [ ]
all_true-In test (name ∷ names) x h (inl same) = elim (Bool-cases (test name)) [
  | inl e ↦ sym (ap test same) ∙ e
  | inr e ↦ (let bad : false ≡ true = rw e at h in cc)
]
all_true-In test (name ∷ names) x h (inr later) = elim (Bool-cases (test name)) [
  | inl e ↦ all_true-In test names x (rw e at h) later
  | inr e ↦ (let bad : false ≡ true = rw e at h in cc)
]

-- A run of the instrument that earns a grade above the floor.
abbrev pub Above : ℕ → Text → Type 0
Above floor name = (status : ResultStatus) × (ranked_above floor (grade_for name status) ≡ true)

tops-Above : (floor : ℕ) (name : Text) → tops floor name ≡ true → Above floor name
tops-Above floor name h = elim (Bool-cases (ranked_above floor (grade_for name result))) [
  | inl e ↦ (result, e)
  | inr e ↦ elim (Bool-cases (ranked_above floor (grade_for name refuted))) [
    | inl e' ↦ (refuted, e')
    | inr e' ↦ (undecided, rw (e, e') at h)
  ]
]

instruments_above_iff :
    (floor : ℕ)
    → all_true (tops floor) (instruments_above floor) ≡ true
    → (name : Text) → In name (instruments_above floor) ↔ Above floor name
unfolding instruments_above grade_for
instruments_above_iff floor checked name = (
  λ there.
      tops-Above floor name (all_true-In (tops floor) (instruments_above floor) name checked there),
  λ (status, h).
      sort_texts-In name (names_above floor matrix)
        (names_above_of_grade floor name status matrix h),
)

ranked_above_zero : (grade : EvidenceGrade) → ltb 0 (rank grade) ≡ true
ranked_above_zero A = refl
ranked_above_zero B = refl
ranked_above_zero C = refl
ranked_above_zero D = refl

outranks_lem :
    (candidate current : Option EvidenceGrade)
    → ranked_above (rank_or_zero current) candidate ≡ outranks candidate current
outranks_lem none current = refl
outranks_lem (some grade) none = ranked_above_zero grade
outranks_lem (some grade) (some current) = refl

raise_path_checked :
    (current : Option EvidenceGrade)
    → all_true (tops (rank_or_zero current)) (instruments_above (rank_or_zero current)) ≡ true
unfolding instruments_above matrix grade_for
raise_path_checked none = refl
raise_path_checked (some A) = refl
raise_path_checked (some B) = refl
raise_path_checked (some C) = refl
raise_path_checked (some D) = refl

-- The raise path of a grade names exactly the instruments of which some outcome earns a grade that
-- outranks it.
pub raise_path_iff :
    (current : Option EvidenceGrade) (name : Text)
    → In name (raise_path current)
      ↔ ((status : ResultStatus) × (outranks (grade_for name status) current ≡ true))
unfolding raise_path
raise_path_iff current name =
    let above = instruments_above_iff (rank_or_zero current) (raise_path_checked current) name in
    (
      λ there.
          (let run = above.0 there in
            (run.0, sym (outranks_lem (grade_for name run.0) current) ∙ run.1)),
      λ (status, h). above.1 (status, outranks_lem (grade_for name status) current ∙ h),
    )

reaching_checked :
    (grade : EvidenceGrade)
    → all_true (tops (rank grade - 1)) (instruments_above (rank grade - 1)) ≡ true
unfolding instruments_above matrix grade_for
reaching_checked A = refl
reaching_checked B = refl
reaching_checked C = refl
reaching_checked D = refl

-- The grade is not outranked by the run's.
abbrev pub reaches : EvidenceGrade → Option EvidenceGrade → Bool
reaches grade none = false
reaches grade (some earned) = leb (rank grade) (rank earned)

reaches_lem :
    (grade : EvidenceGrade) (earned : Option EvidenceGrade)
    → ranked_above (rank grade - 1) earned ≡ reaches grade earned
reaches_lem grade none = refl
reaches_lem A (some earned) = ground arith
reaches_lem B (some earned) = ground arith
reaches_lem C (some earned) = ground arith
reaches_lem D (some earned) = ground arith

-- The instruments reaching a grade are exactly those of which some outcome earns it or a higher one.
pub instruments_reaching_iff :
    (grade : EvidenceGrade) (name : Text)
    → In name (instruments_reaching grade)
      ↔ ((status : ResultStatus) × (reaches grade (grade_for name status) ≡ true))
unfolding instruments_reaching
instruments_reaching_iff grade name =
    let above = instruments_above_iff (rank grade - 1) (reaching_checked grade) name in
    (
      λ there.
          (let run = above.0 there in
            (run.0, sym (reaches_lem grade (grade_for name run.0)) ∙ run.1)),
      λ (status, h). above.1 (status, reaches_lem grade (grade_for name status) ∙ h),
    )
