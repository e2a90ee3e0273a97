-- ===== src/Evidence/Grading.antt =====
-- backend/app/toolbench/grading.py: the matrix of grades, and the reads of it in both directions.
use opentheory.Base.{
  ℕ, ◌-◌, Bool, true, false, ◌||◌, Option, none, some, List, [], ◌∷◌, ltb, if◌then◌else◌, is_none,
}
use opentheory.Base.Text.{Text, codes, text_eq, text_le}

pub data EvidenceGrade : Type 0 where
  A B C D : EvidenceGrade

pub data ResultStatus : Type 0 where
  result refuted undecided : ResultStatus

abbrev pub status_eq : ResultStatus → ResultStatus → Bool
status_eq result result = true
status_eq refuted refuted = true
status_eq undecided undecided = true
status_eq _ _ = false

-- One instrument's row, a dictionary from statuses to grades.
abbrev pub Cells : Type 0
Cells = List (ResultStatus × Option EvidenceGrade)

abbrev pub cells : Option EvidenceGrade → Option EvidenceGrade → Option EvidenceGrade → Cells
cells on_result on_refuted on_undecided =
    (result, on_result) ∷ (refuted, on_refuted) ∷ (undecided, on_undecided) ∷ []

-- `_MATRIX`
unfoldable pub matrix : List (Text × Cells)
matrix =
    (codes "z3.prove", cells (some A) (some A) none)
    ∷ (codes "z3.satisfy", cells (some A) (some A) none)
    ∷ (codes "lean.prove", cells (some A) none none)
    ∷ (codes "expr.compare", cells (some B) (some B) none)
    ∷ (codes "calc.eval", cells (some B) (some B) none)
    ∷ (codes "interval.eval", cells (some C) (some B) none)
    ∷ (codes "geometry.coordinate_measure", cells (some B) none none)
    ∷ (codes "counterexample.search", cells (some C) (some B) none)
    ∷ (codes "oeis.search", cells none none none)
    ∷ (codes "crossref.lookup", cells none none none)
    ∷ (codes "arxiv.lookup", cells none none none)
    ∷ (codes "openalex.lookup", cells none none none)
    ∷ (codes "source.pin", cells none none none)
    ∷ (codes "table.create", cells none none none)
    ∷ (codes "table.render", cells none none none)
    ∷ (codes "table.derive_column", cells (some C) (some B) none)
    ∷ (codes "plot.function", cells none none none)
    ∷ (codes "plot.points", cells none none none)
    ∷ []

-- `_RANK`
abbrev pub rank : EvidenceGrade → ℕ
rank A = 4
rank B = 3
rank C = 2
rank D = 1

abbrev pub find_row : Text → List (Text × Cells) → Option Cells
find_row name [] = none
find_row name ((key, row) ∷ rows) = if text_eq key name then some row else find_row name rows

abbrev pub find_cell : ResultStatus → Cells → Option (Option EvidenceGrade)
find_cell status [] = none
find_cell status ((key, cell) ∷ cells) =
    if status_eq key status then some cell else find_cell status cells

-- A missing row reads as an empty one, a missing cell as no grade.
abbrev pub row_or_empty : Option Cells → Cells
row_or_empty none = []
row_or_empty (some row) = row

abbrev pub cell_or_none : Option (Option EvidenceGrade) → Option EvidenceGrade
cell_or_none none = none
cell_or_none (some cell) = cell

abbrev pub row_grade : ResultStatus → Option Cells → Option EvidenceGrade
row_grade status row = cell_or_none (find_cell status (row_or_empty row))

unfoldable pub grade_for : Text → ResultStatus → Option EvidenceGrade
unfolding matrix
grade_for instrument status = row_grade status (find_row instrument matrix)

-- `max(grades, key=rank)`: the first of the highest.
abbrev pub max_from : EvidenceGrade → List EvidenceGrade → EvidenceGrade
max_from best [] = best
max_from best (grade ∷ grades) =
    max_from (if ltb (rank best) (rank grade) then grade else best) grades

unfoldable pub strongest : List EvidenceGrade → Option EvidenceGrade
strongest [] = none
strongest (grade ∷ grades) = some (max_from grade grades)

abbrev pub ranked_above : ℕ → Option EvidenceGrade → Bool
ranked_above floor none = false
ranked_above floor (some grade) = ltb floor (rank grade)

abbrev pub any_above : ℕ → Cells → Bool
any_above floor [] = false
any_above floor ((_, cell) ∷ cells) = ranked_above floor cell || any_above floor cells

abbrev pub names_above : ℕ → List (Text × Cells) → List Text
names_above floor [] = []
names_above floor ((name, row) ∷ rows) =
    let rest = names_above floor rows in if any_above floor row then name ∷ rest else rest

-- `sorted` on texts.
abbrev pub insert_text : Text → List Text → List Text
insert_text name [] = name ∷ []
insert_text name (first ∷ rest) =
    if text_le name first then name ∷ first ∷ rest else first ∷ insert_text name rest

abbrev pub sort_texts : List Text → List Text
sort_texts [] = []
sort_texts (name ∷ names) = insert_text name (sort_texts names)

unfoldable pub instruments_above : ℕ → List Text
unfolding matrix
instruments_above floor = sort_texts (names_above floor matrix)

abbrev pub outranks : Option EvidenceGrade → Option EvidenceGrade → Bool
outranks none incumbent = false
outranks (some candidate) none = true
outranks (some candidate) (some incumbent) = ltb (rank incumbent) (rank candidate)

unfoldable pub instruments_reaching : EvidenceGrade → List Text
instruments_reaching grade = instruments_above (rank grade - 1)

abbrev pub rank_or_zero : Option EvidenceGrade → ℕ
rank_or_zero none = 0
rank_or_zero (some grade) = rank grade

unfoldable pub raise_path : Option EvidenceGrade → List Text
raise_path current = instruments_above (rank_or_zero current)

pub data Problem : Type 0 where
  no_entry : Problem
  missing_cells : List ResultStatus → Problem

-- The statuses without a cell, in the order of `sorted`.
abbrev pub missing_in : Cells → List ResultStatus → List ResultStatus
missing_in row [] = []
missing_in row (status ∷ statuses) =
    let rest = missing_in row statuses in
    if is_none (find_cell status row) then status ∷ rest else rest

abbrev pub missing_problem : List ResultStatus → List Problem
missing_problem [] = []
missing_problem (status ∷ statuses) = missing_cells (status ∷ statuses) ∷ []

abbrev pub row_problems : Option Cells → List Problem
row_problems none = no_entry ∷ []
row_problems (some row) = missing_problem (missing_in row (refuted ∷ result ∷ undecided ∷ []))

unfoldable pub grading_problems : Text → List Problem
unfolding matrix
grading_problems name = row_problems (find_row name matrix)
