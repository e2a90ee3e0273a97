-- ===== src/Evidence/Movements.antt =====
-- How a pass moved a claim (grounding.py: _movement), and when that is reported.
use opentheory.Base.{
  ℕ, ◌<◌, ◌≡◌, refl, sym, ap, ◌∙◌, ◌≢◌, ◌⊎◌, ◌↔◌, inl, inr, Bool, true, false, not, ◌&&◌, ◌||◌,
  Option, none, some, arith, ◌==◌, ==_iff, if◌then◌else◌, Bool-cases,
}
use opentheory.Evidence.Grading.{EvidenceGrade, rank, outranks}
use opentheory.Evidence.Grounding.{
  GroundingHeadline, proven, refuted, grade_b, grade_c, grade_d, cited, ungrounded, position,
  headline_eq, ClaimGrounding,
}
use opentheory.Evidence.Yield.{
  ClaimMovement, settled, raised, unchanged, is_settled, is_unchanged, movement,
}

-- The claim became settled: its headline changed to proven or refuted.
abbrev pub Settles : ClaimGrounding → ClaimGrounding → Type 0
Settles was now =
    ((now.headline ≡ proven) ⊎ (now.headline ≡ refuted)) × (was.headline ≢ now.headline)

-- A grade where there was none, or one of a higher rank.
abbrev pub Better : Option EvidenceGrade → Option EvidenceGrade → Type 0
Better none old = ⊥
Better (some grade) none = Unit
Better (some grade) (some old) = rank old < rank grade

-- What each movement says of a claim's grounding before and after the pass.
abbrev pub Moves : ClaimGrounding → ClaimGrounding → ClaimMovement → Type 0
Moves was now settled = Settles was now
Moves was now raised = (¬ Settles was now) × Better now.support was.support
Moves was now unchanged = (¬ Settles was now) × (¬ Better now.support was.support)

headline_at : ℕ → GroundingHeadline
headline_at n =
    if n == 0
    then proven
    else if n == 1
    then refuted
    else if n == 2
    then grade_b
    else if n == 3
    then grade_c
    else if n == 4
    then grade_d
    else if n == 5
    then cited
    else ungrounded

headline_at-position : (headline : GroundingHeadline) → headline_at (position headline) ≡ headline
unfolding headline_at
headline_at-position proven = refl
headline_at-position refuted = refl
headline_at-position grade_b = refl
headline_at-position grade_c = refl
headline_at-position grade_d = refl
headline_at-position cited = refl
headline_at-position ungrounded = refl

pub headline_eq_iff : (a b : GroundingHeadline) → (headline_eq a b ≡ true) ↔ (a ≡ b)
headline_eq_iff a b = (
  λ h.
      sym (headline_at-position a)
      ∙ (ap headline_at ((==_iff (position a) (position b)).0 h) ∙ headline_at-position b),
  λ e. (==_iff (position a) (position b)).1 (ap position e),
)

is_settled_iff :
    (headline : GroundingHeadline)
    → (is_settled headline ≡ true) ↔ ((headline ≡ proven) ⊎ (headline ≡ refuted))
is_settled_iff headline =
    (forth headline, λ either. elim either [ inl e ↦ ap is_settled e | inr e ↦ ap is_settled e ])
  where
    forth : (h : GroundingHeadline) → is_settled h ≡ true → (h ≡ proven) ⊎ (h ≡ refuted)
    forth proven e = inl refl
    forth refuted e = inr refl
    forth grade_b e = cc
    forth grade_c e = cc
    forth grade_d e = cc
    forth cited e = cc
    forth ungrounded e = cc

outranks_iff : (new old : Option EvidenceGrade) → (outranks new old ≡ true) ↔ Better new old
outranks_iff none old = (λ h. cc, λ h. elim h [ ])
outranks_iff (some grade) none = (λ h. tt, λ h. refl)
outranks_iff (some grade) (some old) = (λ h. ground arith, λ h. ground arith)

has_settled : ClaimGrounding → ClaimGrounding → Bool
has_settled was now = is_settled now.headline && not (headline_eq was.headline now.headline)

has_settled_iff : (was now : ClaimGrounding) → (has_settled was now ≡ true) ↔ Settles was now
unfolding has_settled
has_settled_iff was now = (
  λ h. elim (Bool-cases (is_settled now.headline)) [
    | inl is ↦ elim (Bool-cases (headline_eq was.headline now.headline)) [
      | inl same ↦ (let bad : false ≡ true = rw (is, same) at h in cc)
      | inr other ↦ (
        (is_settled_iff now.headline).0 is,
        λ e.
            (let bad : true ≡ false =
                sym ((headline_eq_iff was.headline now.headline).1 e) ∙ other in
              cc),
      )
    ]
    | inr not_it ↦ (let bad : false ≡ true = rw not_it at h in cc)
  ],
  λ s.
      let is = (is_settled_iff now.headline).1 s.0 in
      elim (Bool-cases (headline_eq was.headline now.headline)) [
        | inl same ↦ absurd (s.1 ((headline_eq_iff was.headline now.headline).0 same))
        | inr other ↦ rw (is, other) refl
      ],
)

-- A test that is false refutes what it decides.
pub refutes : {P : Type 0} (b : Bool) → (b ≡ true) ↔ P → b ≡ false → ¬ P
refutes b decides fails p = (let bad : true ≡ false = sym (decides.1 p) ∙ fails in cc)

pub movement-Moves : (was now : ClaimGrounding) → Moves was now (movement was now)
unfolding movement has_settled
movement-Moves was now = elim (Bool-cases (has_settled was now)) [
  | inl done ↦ rw done ((has_settled_iff was now).0 done)
  | inr open_still ↦ elim (Bool-cases (outranks now.support was.support)) [
    | inl up ↦
        rw (open_still, up)
          (
            refutes _ (has_settled_iff was now) open_still,
            (outranks_iff now.support was.support).0 up,
          )
    | inr flat ↦
        rw (open_still, flat)
          (
            refutes _ (has_settled_iff was now) open_still,
            refutes _ (outranks_iff now.support was.support) flat,
          )
  ]
]

pub Moves-unique :
    (was now : ClaimGrounding) (m n : ClaimMovement) → Moves was now m → Moves was now n → m ≡ n
Moves-unique was now settled settled h k = refl
Moves-unique was now settled raised h k = absurd (k.0 h)
Moves-unique was now settled unchanged h k = absurd (k.0 h)
Moves-unique was now raised settled h k = absurd (h.0 k)
Moves-unique was now raised raised h k = refl
Moves-unique was now raised unchanged h k = absurd (k.1 h.1)
Moves-unique was now unchanged settled h k = absurd (h.0 k)
Moves-unique was now unchanged raised h k = absurd (h.1 k.1)
Moves-unique was now unchanged unchanged h k = refl

-- Whether the claim is reported: it moved, or its headline is another one.
abbrev pub Noted : ClaimGrounding → ClaimGrounding → ClaimMovement → Type 0
Noted was now how = (how ≢ unchanged) ⊎ (was.headline ≢ now.headline)

abbrev pub is_noted : ClaimGrounding → ClaimGrounding → ClaimMovement → Bool
is_noted was now how = not (is_unchanged how) || not (headline_eq was.headline now.headline)

pub is_noted_iff :
    (was now : ClaimGrounding) (how : ClaimMovement)
    → (is_noted was now how ≡ true) ↔ Noted was now how
is_noted_iff was now settled = (λ h. inl (λ e. unequal e), λ h. refl)
  where
    unequal : settled ≢ unchanged
    unequal e = (let bad : is_unchanged settled ≡ true = ap is_unchanged e in cc)
is_noted_iff was now raised = (λ h. inl (λ e. unequal e), λ h. refl)
  where
    unequal : raised ≢ unchanged
    unequal e = (let bad : is_unchanged raised ≡ true = ap is_unchanged e in cc)
is_noted_iff was now unchanged = elim (Bool-cases (headline_eq was.headline now.headline)) [
  | inl same ↦ rw same (
    λ h. cc,
    λ h. elim h [
      | inl moved ↦ absurd (moved refl)
      | inr other ↦ absurd (other ((headline_eq_iff was.headline now.headline).0 same))
    ],
  )
  | inr other ↦
      rw other (λ h. inr (refutes _ (headline_eq_iff was.headline now.headline) other), λ h. refl)
]
