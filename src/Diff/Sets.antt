-- ===== src/Diff/Sets.antt =====
-- The sets that diff.py takes of checkpoint ids: intersection, difference and a newest member.
use opentheory.Base.{
  ℕ, ◌≤◌, ◌≡◌, refl, inl, inr, Bool, true, false, List, [], ◌∷◌, arith, ltb, if◌then◌else◌,
  Bool-cases, In, elem, elem-In, In-elem,
}
use opentheory.Diff.Ancestry.{meet, minus, before, newest_of}

pub In-meet : (x : ℕ) (xs ys : List ℕ) → In x xs → In x ys → In x (meet xs ys)
In-meet x [] ys h k = elim h [ ]
In-meet x (y ∷ xs) ys (inl same) k =
    let seen : elem y ys ≡ true = In-elem y ys (rw same k) in rw seen (inl same)
In-meet x (y ∷ xs) ys (inr later) k = elim (Bool-cases (elem y ys)) [
  | inl here ↦ rw here (inr (In-meet x xs ys later k))
  | inr there ↦ rw there (In-meet x xs ys later k)
]

pub meet-In : (x : ℕ) (xs ys : List ℕ) → In x (meet xs ys) → In x xs × In x ys
meet-In x [] ys h = elim h [ ]
meet-In x (y ∷ xs) ys h = elim (Bool-cases (elem y ys)) [
  | inl here ↦
      let h' : In x (y ∷ meet xs ys) = rw here at h in
      elim h' [
        | inl same ↦ (inl same, rw (← same) (elem-In y ys here))
        | inr later ↦ (let rest = meet-In x xs ys later in (inr rest.0, rest.1))
      ]
  | inr there ↦
      let h' : In x (meet xs ys) = rw there at h in
      let rest = meet-In x xs ys h' in (inr rest.0, rest.1)
]

pub In-minus : (x : ℕ) (xs ys : List ℕ) → In x xs → elem x ys ≡ false → In x (minus xs ys)
In-minus x [] ys h k = elim h [ ]
In-minus x (y ∷ xs) ys (inl same) k = (let k' : elem y ys ≡ false = rw same k in rw k' (inl same))
In-minus x (y ∷ xs) ys (inr later) k = elim (Bool-cases (elem y ys)) [
  | inl here ↦ rw here (In-minus x xs ys later k)
  | inr there ↦ rw there (inr (In-minus x xs ys later k))
]

pub minus-In : (x : ℕ) (xs ys : List ℕ) → In x (minus xs ys) → In x xs × (elem x ys ≡ false)
minus-In x [] ys h = elim h [ ]
minus-In x (y ∷ xs) ys h = elim (Bool-cases (elem y ys)) [
  | inl here ↦
      let h' : In x (minus xs ys) = rw here at h in
      let rest = minus-In x xs ys h' in (inr rest.0, rest.1)
  | inr there ↦
      let h' : In x (y ∷ minus xs ys) = rw there at h in
      elim h' [
        | inl same ↦ (inl same, rw (← same) there)
        | inr later ↦ (let rest = minus-In x xs ys later in (inr rest.0, rest.1))
      ]
]

pub newest_step :
    (created : ℕ → ℕ) (b : Bool) (best id : ℕ) (ids : List ℕ)
    → In (newest_of created best ids) (best ∷ ids)
    → In (newest_of created id ids) (id ∷ ids)
    → In (newest_of created (if b then id else best) ids) (best ∷ id ∷ ids)
newest_step created true best id ids kept later = inr later
newest_step created false best id ids (inl same) later = inl same
newest_step created false best id ids (inr kept) later = inr (inr kept)

pub In-newest_of :
    (created : ℕ → ℕ) (best : ℕ) (ids : List ℕ) → In (newest_of created best ids) (best ∷ ids)
unfolding newest_of
In-newest_of created best [] = inl refl
In-newest_of created best (id ∷ ids) =
    newest_step created (before created best id) best id ids (In-newest_of created best ids)
      (In-newest_of created id ids)

-- An element of highest rank.
pub highest :
    (rank : ℕ → ℕ) (x : ℕ) (xs : List ℕ)
    → (m : ℕ) × In m (x ∷ xs) × ((y : ℕ) → In y (x ∷ xs) → rank y ≤ rank m)
highest rank x [] = (
  x,
  inl refl,
  λ y place. elim place [ inl same ↦ rw same (omega arith) | inr never ↦ elim never [ ] ],
)
highest rank x (z ∷ xs) =
    let (m, there, most) = highest rank z xs in
    elim (Bool-cases (ltb (rank m) (rank x))) [
      | inl more ↦ (
        x,
        inl refl,
        λ y place. elim place [
          | inl same ↦ rw same (omega arith)
          | inr later ↦ (let below = most y later in ground arith)
        ],
      )
      | inr less ↦ (
        m,
        inr there,
        λ y place. elim place [ inl same ↦ rw (← same) (ground arith) | inr later ↦ most y later ],
      )
    ]
