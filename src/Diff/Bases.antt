-- ===== src/Diff/Bases.antt =====
-- `lowest_common_ancestor` of diff.py on the closures of two tips.
use opentheory.Base.{
  ℕ, ◌≤◌, ◌<◌, ◌≡◌, refl, sym, ◌∙◌, ◌↔◌, ◌⊎◌, inl, inr, true, false, some, List, [], ◌∷◌, arith,
  ◌==◌, ==_iff, Bool-cases, All, All-In, In, In-append, In-append_left, In-append_right, elem,
  elem-In, In-elem,
}
use opentheory.Diff.Ancestry.{
  Parents, parents_of, walk_ancestors, meet, minus, above_all, proper_ancestors, newest_of,
  first_newest, or_all, lowest_common_ancestor,
}
use opentheory.Diff.Walks.{Ancestor, itself, further, walk_ancestors_iff}
use opentheory.Diff.Sets.{In-meet, meet-In, In-minus, minus-In, In-newest_of, highest}

module _ (parents : Parents) where
  -- The first step of a way up.
  first_step :
      {start id : ℕ}
      → Ancestor parents start id
      → (id ≡ start) ⊎ ((p : ℕ) × In p (parents_of start parents) × Ancestor parents p id)
  first_step itself = inl refl
  first_step {start} {id} (further {x} {p} below up) = elim (first_step below) [
    | inl same ↦
        (let up' : In id (parents_of start parents) = rw same at up in inr (id, up', itself))
    | inr (q, first, rest) ↦ inr (q, first, further rest up)
  ]

  In-above_all :
      (p m : ℕ) (ids : List ℕ) → In p ids → Ancestor parents p m → In m (above_all ids parents)
  unfolding above_all
  In-above_all p m [] h way = elim h [ ]
  In-above_all p m (q ∷ ids) (inl same) way =
      let way' : Ancestor parents q m = rw same way in
      In-append_left m (walk_ancestors q parents) _ (((walk_ancestors_iff parents q).1 m).1 way')
  In-above_all p m (q ∷ ids) (inr later) way =
      In-append_right m (walk_ancestors q parents) _ (In-above_all p m ids later way)

  above_all-In :
      (m : ℕ) (ids : List ℕ)
      → In m (above_all ids parents)
      → (p : ℕ) × In p ids × Ancestor parents p m
  unfolding above_all
  above_all-In m [] h = elim h [ ]
  above_all-In m (q ∷ ids) h = elim (In-append m (walk_ancestors q parents) _ h) [
    | inl here ↦ (q, inl refl, ((walk_ancestors_iff parents q).1 m).0 here)
    | inr later ↦ (let rest = above_all-In m ids later in (rest.0, inr rest.1, rest.2))
  ]

  In-proper_ancestors :
      (n p m : ℕ) (nodes : List ℕ)
      → In n nodes
      → In p (parents_of n parents)
      → Ancestor parents p m
      → In m (proper_ancestors nodes parents)
  unfolding proper_ancestors
  In-proper_ancestors n p m [] h up way = elim h [ ]
  In-proper_ancestors n p m (node ∷ nodes) (inl same) up way =
      let up' : In p (parents_of node parents) = rw same up in
      In-append_left m (above_all (parents_of node parents) parents) _
        (In-above_all p m (parents_of node parents) up' way)
  In-proper_ancestors n p m (node ∷ nodes) (inr later) up way =
      In-append_right m (above_all (parents_of node parents) parents) _
        (In-proper_ancestors n p m nodes later up way)

  proper_ancestors-In :
      (m : ℕ) (nodes : List ℕ)
      → In m (proper_ancestors nodes parents)
      → (n p : ℕ) × In n nodes × In p (parents_of n parents) × Ancestor parents p m
  unfolding proper_ancestors
  proper_ancestors-In m [] h = elim h [ ]
  proper_ancestors-In m (node ∷ nodes) h =
      elim (In-append m (above_all (parents_of node parents) parents) _ h) [
        | inl here ↦
            (let a = above_all-In m (parents_of node parents) here in
              (node, a.0, inl refl, a.1, a.2))
        | inr later ↦ (let r = proper_ancestors-In m nodes later in (r.0, r.1, inr r.2, r.3, r.4))
      ]

  module _ (rank : ℕ → ℕ) (falls : (x p : ℕ) → In p (parents_of x parents) → rank p < rank x) where
    rank-Ancestor : {start id : ℕ} → Ancestor parents start id → rank id ≤ rank start
    rank-Ancestor itself = omega arith
    rank-Ancestor (further {x} {p} below up) =
        (let a = rank-Ancestor below in let b = falls x p up in omega arith)

    -- On a graph without cycles some member of a set lies above no other.
    lowest_member :
        (x : ℕ) (xs : List ℕ) → (m : ℕ) × In m (minus (x ∷ xs) (proper_ancestors (x ∷ xs) parents))
    lowest_member x xs =
        let (m, there, most) = highest rank x xs in
        (
          m,
          In-minus m (x ∷ xs) (proper_ancestors (x ∷ xs) parents) there
              (elim (Bool-cases (elem m (proper_ancestors (x ∷ xs) parents))) [
                | inl above ↦
                    let (n, p, among, up, way) =
                      proper_ancestors-In m (x ∷ xs)
                        (elem-In m (proper_ancestors (x ∷ xs) parents) above) in
                    let a = rank-Ancestor way in
                    let b = falls n p up in let c = most n among in absurd (omega arith)
                | inr free ↦ free
              ]),
        )

  pick :
      (created : ℕ → ℕ) (x : ℕ) (xs all : List ℕ)
      → In x xs
      → (m : ℕ) × (first_newest created (or_all xs all) ≡ some m) × In m xs
  pick created x [] all h = elim h [ ]
  pick created x (y ∷ ys) all h = (newest_of created y ys, refl, In-newest_of created y ys)

  -- A common ancestor of two tips.
  abbrev pub Common : ℕ → ℕ → ℕ → Type 0
  Common a b id = Ancestor parents a id × Ancestor parents b id

  -- A common ancestor that is above no other one.
  abbrev pub IsLowest : ℕ → ℕ → ℕ → Type 0
  IsLowest a b m = (n : ℕ) → (Common a b n × Ancestor parents n m) ↔ (n ≡ m)

  free-IsLowest :
      (a b m : ℕ) (common : List ℕ)
      → ((n : ℕ) → In n common ↔ Common a b n)
      → In m common
      → elem m (proper_ancestors common parents) ≡ false
      → IsLowest a b m
  free-IsLowest a b m common known there free n = (
    (λ (both, way). elim (first_step way) [
      | inl same ↦ sym same
      | inr (p, up, rest) ↦
          let above = In-elem m _ (In-proper_ancestors n p m common ((known n).1 both) up rest) in
          (let bad : true ≡ false = sym above ∙ free in cc)
    ]),
    λ same. rw same ((known m).0 there, itself),
  )

  chosen :
      (a b : ℕ) (created : ℕ → ℕ) (x : ℕ) (common : List ℕ)
      → ((n : ℕ) → In n common ↔ Common a b n)
      → In x (minus common (proper_ancestors common parents))
      → (m : ℕ) × (first_newest created
            (or_all (minus common (proper_ancestors common parents)) common)
          ≡ some m)
        × IsLowest a b m
  chosen a b created x common known there =
      let (m, e, among) =
        pick created x (minus common (proper_ancestors common parents)) common there in
      let (here, free) = minus-In m common (proper_ancestors common parents) among in
      (m, e, free-IsLowest a b m common known here free)

  some_lowest :
      (rank : ℕ → ℕ)
      → ((x p : ℕ) → In p (parents_of x parents) → rank p < rank x)
      → (c : ℕ) (common : List ℕ) → In c common
      → (x : ℕ) × In x (minus common (proper_ancestors common parents))
  some_lowest rank falls c [] h = elim h [ ]
  some_lowest rank falls c (y ∷ ys) h = lowest_member rank falls y ys

  -- On a parent map without cycles, two tips with a common ancestor have a merge base, and it is a
  -- common ancestor that is an ancestor of no other common ancestor.
  pub lowest_common_ancestor-IsLowest :
      (rank : ℕ → ℕ) (created : ℕ → ℕ) (a b c : ℕ)
      → ((x p : ℕ) → In p (parents_of x parents) → rank p < rank x)
      → Ancestor parents a c
      → Ancestor parents b c
      → (m : ℕ) × (lowest_common_ancestor
            (walk_ancestors a parents)
            (walk_ancestors b parents)
            parents
            created
          ≡ some m)
        × IsLowest a b m
  unfolding lowest_common_ancestor
  lowest_common_ancestor-IsLowest rank created a b c falls from to =
      let common = meet (walk_ancestors a parents) (walk_ancestors b parents) in
      let of_a = (walk_ancestors_iff parents a).1 in
      let of_b = (walk_ancestors_iff parents b).1 in
      let known : (n : ℕ) → In n common ↔ Common a b n = λ n. (
        (λ there.
            (let (l, r) = meet-In n (walk_ancestors a parents) (walk_ancestors b parents) there in
              ((of_a n).0 l, (of_b n).0 r))),
        λ both.
            In-meet n (walk_ancestors a parents) (walk_ancestors b parents) ((of_a n).1 both.0)
              ((of_b n).1 both.1),
      ) in
      let lowest = some_lowest rank falls c common ((known c).1 (from, to)) in
      chosen a b created lowest.0 common known lowest.1

-- A map whose entries all name parents with smaller ids has no cycle.
pub parents_fall :
    (entries : Parents)
    → All (λ (entry : ℕ × List ℕ). All (λ p. p < entry.0) entry.1) entries
    → (x p : ℕ) → In p (parents_of x entries)
    → p < x
parents_fall [] smaller x p up = elim up [ ]
parents_fall ((child, ids) ∷ rest) smaller x p up = elim (Bool-cases (child == x)) [
  | inl here ↦
      let same : child ≡ x = (==_iff child x).0 here in
      let up' : In p ids = rw here at up in
      rw (← same) (All-In (λ q. q < child) ids p smaller.0 up')
  | inr there ↦ parents_fall rest smaller.1 x p (rw there at up)
]
