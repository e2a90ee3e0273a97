-- ===== src/Ledger/Outcomes/Heads.antt =====
-- About the parents that a merge collects (merges.py).
use opentheory.Base.{
  ℕ, ◌≡◌, refl, ap, inl, inr, true, false, Option, none, some, List, [], ◌∷◌, ◌++◌, map, arith,
  ◌==◌, Bool-cases, All, In, In-append_left, In-append_right, elem, elem-In, dedup,
}
use opentheory.Base.Http.{bad_request, ok, or_raise, bind_ok, or_raise_ok}
use mathlib.Core.Path.{subst}
use opentheory.Ledger.Store.{Branch, Checkpoint, Db}
use opentheory.Ledger.Merges.{latest_on_branch, add_parent, source_heads}
use opentheory.Ledger.Chokepoint.{ok-injective}

-- No id stands twice in the list.
abbrev pub Distinct : List ℕ → Type 0
Distinct [] = Unit
Distinct (x ∷ xs) = (elem x xs ≡ false) × Distinct xs

elem-snoc :
    (x y : ℕ) (xs : List ℕ) → elem x xs ≡ false → (x == y) ≡ false → elem x (xs ++ (y ∷ [])) ≡ false
elem-snoc x y [] h apart = rw apart refl
elem-snoc x y (z ∷ xs) h apart = elim (Bool-cases (x == z)) [
  | inl here ↦ (let bad : true ≡ false = rw here at h in cc)
  | inr there ↦ rw there (elem-snoc x y xs (rw there at h) apart)
]

elem_head_apart :
    (x z : ℕ) (xs : List ℕ) → elem x (z ∷ xs) ≡ false → ((z == x) ≡ false) × (elem x xs ≡ false)
elem_head_apart x z xs h = elim (Bool-cases (x == z)) [
  | inl here ↦ (let bad : true ≡ false = rw here at h in cc)
  | inr there ↦ (ground arith, rw there at h)
]

snoc-Distinct : (xs : List ℕ) (y : ℕ) → Distinct xs → elem y xs ≡ false → Distinct (xs ++ (y ∷ []))
snoc-Distinct [] y h new = (refl, tt)
snoc-Distinct (x ∷ xs) y h new =
    let apart = elem_head_apart y x xs new in
    (elem-snoc x y xs h.0 apart.0, snoc-Distinct xs y h.1 apart.1)

pub add_parent-Distinct :
    (o : Option Checkpoint) (parents : List ℕ) → Distinct parents → Distinct (add_parent o parents)
add_parent-Distinct none parents h = h
add_parent-Distinct (some row) parents h = elim (Bool-cases (elem row.id parents)) [
  | inl again ↦ rw again h
  | inr new ↦ rw new (snoc-Distinct parents row.id h new)
]

pub source_heads-Distinct :
    (db : Db) (sources : List Branch) (parents : List ℕ) {heads : List ℕ}
    → source_heads db sources parents ≡ ok heads
    → Distinct parents
    → Distinct heads
unfolding source_heads
source_heads-Distinct db [] parents h distinct = subst Distinct (ok-injective h) distinct
source_heads-Distinct db (branch ∷ rest) parents h distinct =
    let c1 = bind_ok (or_raise (latest_on_branch db branch.id) bad_request) _ h in
    source_heads-Distinct db rest (add_parent (some c1.0) parents) c1.2
      (add_parent-Distinct (some c1.0) parents distinct)

-- On ids that are distinct and not seen yet, dropping repetitions drops nothing.
pub dedup-Distinct :
    (seen ids : List ℕ) → All (λ id. elem id seen ≡ false) ids → Distinct ids → dedup seen ids ≡ ids
dedup-Distinct seen [] fresh distinct = refl
dedup-Distinct seen (id ∷ ids) fresh distinct = rw fresh.0 (
    ap (λ rest. id ∷ rest)
      (dedup-Distinct (id ∷ seen) ids (seen_too ids fresh.1 distinct.0) distinct.1))
  where
    seen_too :
        (xs : List ℕ)
        → All (λ x. elem x seen ≡ false) xs
        → elem id xs ≡ false
        → All (λ x. elem x (id ∷ seen) ≡ false) xs
    seen_too [] h apart = tt
    seen_too (x ∷ xs) h apart = elim (Bool-cases (id == x)) [
      | inl here ↦ (let bad : true ≡ false = rw here at apart in cc)
      | inr there ↦
          let back : (x == id) ≡ false = ground arith in
          (rw back h.0, seen_too xs h.1 (rw there at apart))
    ]

pub none_seen : (ids : List ℕ) → All (λ id. elem id [] ≡ false) ids
none_seen [] = tt
none_seen (id ∷ ids) = (refl, none_seen ids)

pub add_parent_keeps :
    (o : Option Checkpoint) (parents : List ℕ) (id : ℕ)
    → In id parents
    → In id (add_parent o parents)
add_parent_keeps none parents id h = h
add_parent_keeps (some row) parents id h = elim (Bool-cases (elem row.id parents)) [
  | inl again ↦ rw again h
  | inr new ↦ rw new (In-append_left id parents (row.id ∷ []) h)
]

add_parent-In : (row : Checkpoint) (parents : List ℕ) → In row.id (add_parent (some row) parents)
add_parent-In row parents = elim (Bool-cases (elem row.id parents)) [
  | inl again ↦ rw again (elem-In row.id parents again)
  | inr new ↦ rw new (In-append_right row.id parents (row.id ∷ []) (inl refl))
]

source_heads_keeps :
    (db : Db) (sources : List Branch) (parents : List ℕ) (id : ℕ) {heads : List ℕ}
    → source_heads db sources parents ≡ ok heads
    → In id parents
    → In id heads
unfolding source_heads
source_heads_keeps db [] parents id h there = subst (λ ids. In id ids) (ok-injective h) there
source_heads_keeps db (branch ∷ rest) parents id h there =
    let c1 = bind_ok (or_raise (latest_on_branch db branch.id) bad_request) _ h in
    source_heads_keeps db rest (add_parent (some c1.0) parents) id c1.2
      (add_parent_keeps (some c1.0) parents id there)

-- The newest checkpoint of the branch is among the parents.
abbrev pub HeadAmong : Db → List ℕ → ℕ → Type 0
HeadAmong db parents id =
    (row : Checkpoint) × (latest_on_branch db id ≡ some row) × In row.id parents

pub source_heads_lem :
    (db : Db) (sources : List Branch) (parents : List ℕ) {heads : List ℕ}
    → source_heads db sources parents ≡ ok heads
    → All (HeadAmong db heads) (map (λ (b : Branch). b.id) sources)
unfolding source_heads
source_heads_lem db [] parents h = tt
source_heads_lem db (branch ∷ rest) parents h =
    let c1 = bind_ok (or_raise (latest_on_branch db branch.id) bad_request) _ h in
    (
      (
        c1.0,
        or_raise_ok _ bad_request c1.1,
        source_heads_keeps db rest (add_parent (some c1.0) parents) c1.0.id c1.2
            (add_parent-In c1.0 parents),
      ),
      source_heads_lem db rest (add_parent (some c1.0) parents) c1.2,
    )
