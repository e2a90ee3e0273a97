-- ===== src/Evidence/Strongest.antt =====
-- About `strongest` and the order of grades (backend/app/toolbench/grading.py).
use opentheory.Base.{
  ℕ, zero, suc, ◌≤◌, ◌≡◌, refl, sym, ap, ◌∙◌, ◌↔◌, ◌⊎◌, inl, inr, none, some, List, [], ◌∷◌, arith,
  ltb, if◌then◌else◌, Bool-cases, Option-cases, All, In,
}
use mathlib.Core.Path.{subst}
use opentheory.Evidence.Grading.{EvidenceGrade, A, B, C, D, rank, max_from, strongest}

abbrev pub AtMost : EvidenceGrade → List EvidenceGrade → Type 0
AtMost top grades = All (λ grade. rank grade ≤ rank top) grades

abbrev higher : EvidenceGrade → EvidenceGrade → EvidenceGrade
higher best grade = if ltb (rank best) (rank grade) then grade else best

higher_lem :
    (best grade : EvidenceGrade)
    → ((higher best grade ≡ best) ⊎ (higher best grade ≡ grade))
      × (rank best ≤ rank (higher best grade))
      × (rank grade ≤ rank (higher best grade))
higher_lem best grade = elim (Bool-cases (ltb (rank best) (rank grade))) [
  | inl above ↦
      (let low : rank best ≤ rank grade = ground arith in rw above (inr refl, low, omega arith))
  | inr below ↦
      (let low : rank grade ≤ rank best = ground arith in rw below (inl refl, omega arith, low))
]

In-step :
    (x top best grade : EvidenceGrade) (grades : List EvidenceGrade)
    → (x ≡ best) ⊎ (x ≡ grade)
    → In top (x ∷ grades)
    → In top (best ∷ grade ∷ grades)
In-step x top best grade grades (inl e) (inl h) = inl (sym e ∙ h)
In-step x top best grade grades (inr e) (inl h) = inr (inl (sym e ∙ h))
In-step x top best grade grades e (inr h) = inr (inr h)

max_from_lem :
    (best : EvidenceGrade) (grades : List EvidenceGrade)
    → In (max_from best grades) (best ∷ grades) × AtMost (max_from best grades) (best ∷ grades)
max_from_lem best [] = (inl refl, (omega arith, tt))
max_from_lem best (grade ∷ grades) =
    let step = higher_lem best grade in
    let rest = max_from_lem (higher best grade) grades in
    let top : rank (higher best grade) ≤ rank (max_from (higher best grade) grades) = rest.1.0 in
    let one : rank best ≤ rank (higher best grade) = step.1 in
    let two : rank grade ≤ rank (higher best grade) = step.2 in
    (
      In-step (higher best grade) (max_from (higher best grade) grades) best grade grades step.0
          rest.0,
      (omega arith, (omega arith, rest.1.1)),
    )

-- The grade of a rank.
abbrev unrank : ℕ → EvidenceGrade
unrank (suc (suc (suc (suc n)))) = A
unrank (suc (suc (suc zero))) = B
unrank (suc (suc zero)) = C
unrank _ = D

unrank-rank : (grade : EvidenceGrade) → unrank (rank grade) ≡ grade
unrank-rank A = refl
unrank-rank B = refl
unrank-rank C = refl
unrank-rank D = refl

rank-injective : (a b : EvidenceGrade) → rank a ≡ rank b → a ≡ b
rank-injective a b h = sym (unrank-rank a) ∙ (ap unrank h ∙ unrank-rank b)

pub AtMost-In :
    (top grade : EvidenceGrade) (grades : List EvidenceGrade)
    → AtMost top grades
    → In grade grades
    → rank grade ≤ rank top
AtMost-In top grade [] h there = elim there [ ]
AtMost-In top grade (first ∷ grades) h (inl same) =
    let le : rank first ≤ rank top = h.0 in
    let e : rank first ≡ rank grade = ap rank same in omega arith
AtMost-In top grade (first ∷ grades) h (inr there) = AtMost-In top grade grades h.1 there

-- The strongest grade of a list is the one in it that no other of the list ranks above.
pub strongest_iff :
    (grades : List EvidenceGrade) (top : EvidenceGrade)
    → (strongest grades ≡ some top) ↔ (In top grades × AtMost top grades)
unfolding strongest
strongest_iff [] top = ((λ h. cc), λ (there, h). elim there [ ])
strongest_iff (grade ∷ grades) top =
    let found = max_from_lem grade grades in
    (
      (λ h.
          (let same : max_from grade grades ≡ top = cc in
            (
              subst (λ g. In g (grade ∷ grades)) same found.0,
              subst (λ g. AtMost g (grade ∷ grades)) same found.1,
            ))),
      λ (there, h).
          (let up : rank top ≤ rank (max_from grade grades) =
              AtMost-In (max_from grade grades) top (grade ∷ grades) found.1 there in
            let down : rank (max_from grade grades) ≤ rank top =
              AtMost-In top (max_from grade grades) (grade ∷ grades) h found.0 in
            ap some (rank-injective (max_from grade grades) top (omega arith))),
    )

-- Lists with the same grades in them have the same strongest one.
pub strongest_same :
    (xs ys : List EvidenceGrade)
    → ((grade : EvidenceGrade) → In grade xs ↔ In grade ys)
    → strongest xs ≡ strongest ys
unfolding strongest
strongest_same xs ys same = elim (Option-cases (strongest ys)) [
  | inl none_there ↦ elim (Option-cases (strongest xs)) [
    | inl none_here ↦ none_here ∙ sym none_there
    | inr (top, here) ↦
        let known = (strongest_iff xs top).0 here in
        empty_of_none ys none_there top ((same top).0 known.0)
  ]
  | inr (top, there) ↦
      let known = (strongest_iff ys top).0 there in
      (strongest_iff xs top).1 (
        (same top).1 known.0,
        at_most_of top xs (λ grade h. AtMost-In top grade ys known.1 ((same grade).0 h)),
      )
      ∙ sym there
]
  where
    empty_of_none :
        (zs : List EvidenceGrade)
        → strongest zs ≡ none
        → (top : EvidenceGrade) → In top zs
        → strongest xs ≡ strongest ys
    empty_of_none [] e top h = elim h [ ]
    empty_of_none (z ∷ zs) e top h = cc

    at_most_of :
        (top : EvidenceGrade) (zs : List EvidenceGrade)
        → ((grade : EvidenceGrade) → In grade zs → rank grade ≤ rank top)
        → AtMost top zs
    at_most_of top [] h = tt
    at_most_of top (z ∷ zs) h =
        (h z (inl refl), at_most_of top zs (λ grade there. h grade (inr there)))
