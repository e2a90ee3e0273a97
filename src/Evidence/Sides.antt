-- ===== src/Evidence/Sides.antt =====
-- The two sides of a claim, as `compute_grounding` fills them (backend/app/services/grounding.py).
use opentheory.Base.{
  ◌≡◌, refl, sym, ap, ◌∙◌, ◌↔◌, ◌⊎◌, inl, inr, Bool, true, false, ◌||◌, Option, none, some, List,
  [], ◌∷◌, ◌++◌, Bool-cases, In, In-append, In-append_left, In-append_right,
}
use mathlib.Core.Path.{subst}
use opentheory.Base.Text.{Text, codes, text_eq}
use opentheory.Evidence.Grading.{EvidenceGrade}
use opentheory.Evidence.Ladder.{text_eq_sound}
use opentheory.Evidence.Grounding.{
  grade_of_link, is_live_pin, Link, Tally, count_grade, count_link, tally_links,
}

-- A link of this kind whose evidence earns the grade.
abbrev pub Gives : Text → EvidenceGrade → Link → Type 0
Gives kind grade link =
    (text_eq link.relation_kind kind ≡ true)
    × (grade_of_link link.source_type link.metadata ≡ some grade)

-- Some link of the list has the property.
abbrev pub Some : (Link → Type 0) → List Link → Type 0
Some P links = (link : Link) × In link links × P link

module _ (kind : Text) (side : Tally → List EvidenceGrade)
    (step : (link : Link) (tally : Tally) (grade : EvidenceGrade)
      → In grade (side (count_link link tally))
        ↔ (In grade (side tally) ⊎ Gives kind grade link)) where
  -- The grades that the loop has put on this side.
  side_In :
      (links : List Link) (tally : Tally) (grade : EvidenceGrade)
      → In grade (side (tally_links links tally))
        ↔ (In grade (side tally) ⊎ Some (Gives kind grade) links)
  unfolding tally_links
  side_In [] tally grade =
      (λ h. inl h, λ h. elim h [ inl there ↦ there | inr (link, there, gives) ↦ elim there [ ] ])
  side_In (link ∷ links) tally grade =
      let rest = side_In links (count_link link tally) grade in
      (
        λ h. elim (rest.0 h) [
          | inl now ↦ elim ((step link tally grade).0 now) [
            | inl before ↦ inl before
            | inr gives ↦ inr (link, inl refl, gives)
          ]
          | inr (other, there, gives) ↦ inr (other, inr there, gives)
        ],
        λ h. rest.1 (elim h [
          | inl before ↦ inl ((step link tally grade).1 (inl before))
          | inr (other, there, gives) ↦ elim there [
            | inl same ↦
                inl ((step link tally grade).1 (inr (subst (Gives kind grade) (sym same) gives)))
            | inr later ↦ inr (other, later, gives)
          ]
        ]),
      )

snoc_In :
    (grade last : EvidenceGrade) (grades : List EvidenceGrade)
    → In grade (grades ++ (last ∷ [])) ↔ (In grade grades ⊎ (last ≡ grade))
snoc_In grade last grades = (
  λ h. elim (In-append grade grades (last ∷ []) h) [
    | inl there ↦ inl there
    | inr (inl e) ↦ inr e
    | inr (inr bad) ↦ elim bad [ ]
  ],
  λ h. elim h [
    | inl there ↦ In-append_left grade grades (last ∷ []) there
    | inr e ↦ In-append_right grade grades (last ∷ []) (inl e)
  ],
)

not_both :
    (kind : Text) → text_eq kind (codes "support") ≡ true → text_eq kind (codes "weaken") ≡ true → ⊥
not_both kind one two =
    let bad : false ≡ true =
      subst (λ k. text_eq k (codes "weaken") ≡ true) (text_eq_sound kind (codes "support") one)
        two in
    cc

support_step :
    (kind : Text) (earned : Option EvidenceGrade) (tally : Tally) (grade : EvidenceGrade)
    → In grade (count_grade kind earned tally).support_grades ↔ (
        In grade tally.support_grades
        ⊎ ((text_eq kind (codes "support") ≡ true) × (earned ≡ some grade)))
support_step kind none tally grade = (
  λ h. inl h,
  λ h. elim h [ inl there ↦ there | inr (k, e) ↦ (let bad : none ≡ some grade = e in cc) ],
)
support_step kind (some earned) tally grade = elim (Bool-cases (text_eq kind (codes "support"))) [
  | inl backs ↦
      let last = snoc_In grade earned tally.support_grades in
      rw backs (
        λ h. elim (last.0 h) [ inl there ↦ inl there | inr e ↦ inr (refl, ap some e) ],
        λ h. last.1 (elim h [ inl there ↦ inl there | inr (k, e) ↦ inr cc ]),
      )
  | inr other ↦ elim (Bool-cases (text_eq kind (codes "weaken"))) [
    | inl weak ↦
        rw (other, weak)
          (
            λ h. inl h,
            λ h. elim h [ inl there ↦ there | inr (k, e) ↦ (let bad : false ≡ true = k in cc) ],
          )
    | inr strong ↦
        rw (other, strong)
          (
            λ h. inl h,
            λ h. elim h [ inl there ↦ there | inr (k, e) ↦ (let bad : false ≡ true = k in cc) ],
          )
  ]
]

counter_step :
    (kind : Text) (earned : Option EvidenceGrade) (tally : Tally) (grade : EvidenceGrade)
    → In grade (count_grade kind earned tally).counter_grades ↔ (
        In grade tally.counter_grades
        ⊎ ((text_eq kind (codes "weaken") ≡ true) × (earned ≡ some grade)))
counter_step kind none tally grade = (
  λ h. inl h,
  λ h. elim h [ inl there ↦ there | inr (k, e) ↦ (let bad : none ≡ some grade = e in cc) ],
)
counter_step kind (some earned) tally grade = elim (Bool-cases (text_eq kind (codes "support"))) [
  | inl backs ↦ rw backs (
    λ h. inl h,
    λ h. elim h [ inl there ↦ there | inr (k, e) ↦ elim (not_both kind backs k) [ ] ],
  )
  | inr other ↦ elim (Bool-cases (text_eq kind (codes "weaken"))) [
    | inl weak ↦
        let last = snoc_In grade earned tally.counter_grades in
        rw (other, weak)
          (
            λ h. elim (last.0 h) [ inl there ↦ inl there | inr e ↦ inr (refl, ap some e) ],
            λ h. last.1 (elim h [ inl there ↦ inl there | inr (k, e) ↦ inr cc ]),
          )
    | inr strong ↦
        rw (other, strong)
          (
            λ h. inl h,
            λ h. elim h [ inl there ↦ there | inr (k, e) ↦ (let bad : false ≡ true = k in cc) ],
          )
  ]
]

-- The support grades of the loop: those before it, and those that supporting links earn.
pub support_In :
    (links : List Link) (tally : Tally) (grade : EvidenceGrade)
    → In grade (tally_links links tally).support_grades
      ↔ (In grade tally.support_grades ⊎ Some (Gives (codes "support") grade) links)
support_In =
    side_In (codes "support") (λ tally. tally.support_grades)
      (λ link tally.
        support_step link.relation_kind (grade_of_link link.source_type link.metadata)
          (record tally { pinned = is_live_pin link.source_type link.metadata || tally.pinned }))

pub counter_In :
    (links : List Link) (tally : Tally) (grade : EvidenceGrade)
    → In grade (tally_links links tally).counter_grades
      ↔ (In grade tally.counter_grades ⊎ Some (Gives (codes "weaken") grade) links)
counter_In =
    side_In (codes "weaken") (λ tally. tally.counter_grades)
      (λ link tally.
        counter_step link.relation_kind (grade_of_link link.source_type link.metadata)
          (record tally { pinned = is_live_pin link.source_type link.metadata || tally.pinned }))

count_grade_pinned :
    (kind : Text) (earned : Option EvidenceGrade) (tally : Tally)
    → (count_grade kind earned tally).pinned ≡ tally.pinned
count_grade_pinned kind none tally = refl
count_grade_pinned kind (some grade) tally = elim (Bool-cases (text_eq kind (codes "support"))) [
  | inl backs ↦ rw backs refl
  | inr other ↦ elim (Bool-cases (text_eq kind (codes "weaken"))) [
    | inl weak ↦ rw (other, weak) refl
    | inr strong ↦ rw (other, strong) refl
  ]
]

or_true : (a b : Bool) → ((a || b) ≡ true) ↔ ((a ≡ true) ⊎ (b ≡ true))
or_true true b = (λ h. inl refl, λ h. refl)
or_true false b = (λ h. inr h, λ h. elim h [ inl bad ↦ cc | inr e ↦ e ])

abbrev pub LivePin : Link → Type 0
LivePin link = is_live_pin link.source_type link.metadata ≡ true

pub pinned_iff :
    (links : List Link) (tally : Tally)
    → ((tally_links links tally).pinned ≡ true) ↔ ((tally.pinned ≡ true) ⊎ Some LivePin links)
unfolding tally_links
pinned_iff [] tally =
    (λ h. inl h, λ h. elim h [ inl e ↦ e | inr (link, there, live) ↦ elim there [ ] ])
pinned_iff (link ∷ links) tally =
    let live = is_live_pin link.source_type link.metadata in
    let rest = pinned_iff links (count_link link tally) in
    let flag : (count_link link tally).pinned ≡ (live || tally.pinned) =
      count_grade_pinned link.relation_kind (grade_of_link link.source_type link.metadata)
        (record tally { pinned = live || tally.pinned }) in
    let either = or_true live tally.pinned in
    (
      λ h. elim (rest.0 h) [
        | inl now ↦ elim (either.0 (sym flag ∙ now)) [
          | inl e ↦ inr (link, inl refl, e)
          | inr e ↦ inl e
        ]
        | inr (other, there, e) ↦ inr (other, inr there, e)
      ],
      λ h. rest.1 (elim h [
        | inl e ↦ inl (flag ∙ either.1 (inr e))
        | inr (other, there, e) ↦ elim there [
          | inl same ↦ inl (flag ∙ either.1 (inl (subst LivePin (sym same) e)))
          | inr later ↦ inr (other, later, e)
        ]
      ]),
    )
