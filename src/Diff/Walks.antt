-- ===== src/Diff/Walks.antt =====
-- `walk_ancestors` of diff.py: the loop ends, and what it has seen is the ancestor closure.
use opentheory.Base.{
  ℕ, zero, suc, ◌+◌, ◌≤◌, ◌<◌, ◌≡◌, refl, ◌↔◌, ◌⊎◌, inl, inr, false, some, List, [], ◌∷◌, ◌++◌,
  arith, ◌==◌, ==_iff, ==_refl, if◌then◌else◌, Bool-cases, length, length-append, In, In-append,
  In-append_left, In-append_right, elem, elem-In,
}
use mathlib.Core.List.{reverse, reverse_aux}
use opentheory.Diff.Ancestry.{Parents, parents_of, walk, edges, walk_ancestors}

-- A checkpoint that the parents lead to, in no or more steps.
pub data Ancestor (parents : Parents) (start : ℕ) : ℕ → Type 0 where
  itself : Ancestor parents start start
  further :
      {x p : ℕ} → Ancestor parents start x → In p (parents_of x parents) → Ancestor parents start p

-- The parents of what is not seen yet, counted.
abbrev unseen : Parents → List ℕ → ℕ
unseen [] seen = 0
unseen ((child, ids) ∷ rest) seen = (if elem child seen then 0 else length ids) + unseen rest seen

unseen_start : (parents : Parents) → unseen parents [] ≡ edges parents
unseen_start [] = refl
unseen_start ((child, ids) ∷ rest) = omega (arith, unseen_start rest)

unseen_skips :
    (parents : Parents) (x : ℕ) (seen : List ℕ) → unseen parents (x ∷ seen) ≤ unseen parents seen
unseen_skips [] x seen = omega arith
unseen_skips ((child, ids) ∷ rest) x seen = ground (arith, unseen_skips rest x seen)

-- Seeing a checkpoint takes its parents off the count.
unseen_enters :
    (parents : Parents) (x : ℕ) (seen : List ℕ)
    → elem x seen ≡ false
    → length (parents_of x parents) + unseen parents (x ∷ seen) ≤ unseen parents seen
unseen_enters [] x seen new = omega arith
unseen_enters ((child, ids) ∷ rest) x seen new = elim (Bool-cases (child == x)) [
  | inl here ↦
      let same : child ≡ x = (==_iff child x).0 here in
      let less = unseen_skips rest x seen in rw (same, ==_refl x, new) (ground arith)
  | inr there ↦ let more = unseen_enters rest x seen new in rw there (ground arith)
]

length-reverse_aux : (xs acc : List ℕ) → length (reverse_aux xs acc) ≡ length xs + length acc
length-reverse_aux [] acc = omega arith
length-reverse_aux (x ∷ xs) acc = omega (arith, length-reverse_aux xs (x ∷ acc))

In-reverse_aux_acc : (x : ℕ) (xs acc : List ℕ) → In x acc → In x (reverse_aux xs acc)
In-reverse_aux_acc x [] acc h = h
In-reverse_aux_acc x (y ∷ xs) acc h = In-reverse_aux_acc x xs (y ∷ acc) (inr h)

In-reverse_aux : (x : ℕ) (xs acc : List ℕ) → In x xs → In x (reverse_aux xs acc)
In-reverse_aux x [] acc h = elim h [ ]
In-reverse_aux x (y ∷ xs) acc (inl same) = In-reverse_aux_acc x xs (y ∷ acc) (inl same)
In-reverse_aux x (y ∷ xs) acc (inr later) = In-reverse_aux x xs (y ∷ acc) later

reverse_aux-In : (x : ℕ) (xs acc : List ℕ) → In x (reverse_aux xs acc) → In x xs ⊎ In x acc
reverse_aux-In x [] acc h = inr h
reverse_aux-In x (y ∷ xs) acc h = elim (reverse_aux-In x xs (y ∷ acc) h) [
  | inl there ↦ inl (inr there)
  | inr (inl same) ↦ inl (inl same)
  | inr (inr old) ↦ inr old
]

module _ (parents : Parents) where
  abbrev pushed : ℕ → List ℕ → List ℕ
  pushed x stack = reverse (parents_of x parents) ++ stack

  -- Fuel above the stack's length and the count ends the loop.
  walk_ends :
      (fuel : ℕ) (stack seen : List ℕ)
      → length stack + unseen parents seen < fuel
      → (out : List ℕ) × (walk fuel parents stack seen ≡ some out)
  unfolding walk
  walk_ends zero stack seen h = elim h [ ]
  walk_ends (suc fuel) [] seen h = (seen, refl)
  walk_ends (suc fuel) (x ∷ stack) seen h = elim (Bool-cases (elem x seen)) [
    | inl old ↦ rw old (walk_ends fuel stack seen (omega arith))
    | inr new ↦
        let less = unseen_enters parents x seen new in
        let joined = length-append (reverse (parents_of x parents)) stack in
        let turned = length-reverse_aux (parents_of x parents) [] in
        rw new (walk_ends fuel (pushed x stack) (x ∷ seen) (omega arith))
  ]

  -- What is seen or on the stack stays in the result.
  walk_keeps :
      (fuel : ℕ) (stack seen : List ℕ) {out : List ℕ} (id : ℕ)
      → walk fuel parents stack seen ≡ some out
      → In id stack ⊎ In id seen
      → In id out
  unfolding walk
  walk_keeps zero stack seen id h where_ = cc
  walk_keeps (suc fuel) [] seen {out} id h (inl there) = elim there [ ]
  walk_keeps (suc fuel) [] seen {out} id h (inr there) =
      (let same : seen ≡ out = cc in rw (← same) there)
  walk_keeps (suc fuel) (x ∷ stack) seen {out} id h place = elim (Bool-cases (elem x seen)) [
    | inl old ↦
        let again : walk fuel parents stack seen ≡ some out = rw old at h in
        walk_keeps fuel stack seen {out = out} id again
          (skip_place x stack seen id (elem-In x seen old) place)
    | inr new ↦
        let again : walk fuel parents (pushed x stack) (x ∷ seen) ≡ some out = rw new at h in
        walk_keeps fuel (pushed x stack) (x ∷ seen) {out = out} id again
          (enter_place x stack seen id place)
  ]
    where
      skip_place :
          (x : ℕ) (stack seen : List ℕ) (id : ℕ)
          → In x seen
          → In id (x ∷ stack) ⊎ In id seen
          → In id stack ⊎ In id seen
      skip_place x stack seen id old (inl (inl same)) = inr (rw (← same) old)
      skip_place x stack seen id old (inl (inr later)) = inl later
      skip_place x stack seen id old (inr there) = inr there

      enter_place :
          (x : ℕ) (stack seen : List ℕ) (id : ℕ)
          → In id (x ∷ stack) ⊎ In id seen
          → In id (pushed x stack) ⊎ In id (x ∷ seen)
      enter_place x stack seen id (inl (inl same)) = inr (inl same)
      enter_place x stack seen id (inl (inr later)) = inl (In-append_right id _ stack later)
      enter_place x stack seen id (inr there) = inr (inr there)

  -- The parents of what is seen are seen or on the stack.
  abbrev Pending : List ℕ → List ℕ → Type 0
  Pending stack seen = (x p : ℕ) → In x seen → In p (parents_of x parents) → In p stack ⊎ In p seen

  Pending-skip :
      (x : ℕ) (stack seen : List ℕ) → In x seen → Pending (x ∷ stack) seen → Pending stack seen
  Pending-skip x stack seen old open_ y p there up = elim (open_ y p there up) [
    | inl (inl same) ↦ inr (rw (← same) old)
    | inl (inr later) ↦ inl later
    | inr done ↦ inr done
  ]

  Pending-enter :
      (x : ℕ) (stack seen : List ℕ) → Pending (x ∷ stack) seen → Pending (pushed x stack) (x ∷ seen)
  Pending-enter x stack seen open_ y p (inl same) up =
      let up' : In p (parents_of x parents) = rw same up in
      inl (
        In-append_left p (reverse (parents_of x parents)) stack
          (In-reverse_aux p (parents_of x parents) [] up'))
  Pending-enter x stack seen open_ y p (inr there) up = elim (open_ y p there up) [
    | inl (inl same) ↦ inr (inl same)
    | inl (inr later) ↦ inl (In-append_right p (reverse (parents_of x parents)) stack later)
    | inr done ↦ inr (inr done)
  ]

  walk_closes :
      (fuel : ℕ) (stack seen : List ℕ) {out : List ℕ}
      → walk fuel parents stack seen ≡ some out
      → Pending stack seen
      → (x p : ℕ) → In x out
      → In p (parents_of x parents)
      → In p out
  unfolding walk
  walk_closes zero stack seen h open_ x p there up = cc
  walk_closes (suc fuel) [] seen {out} h open_ x p there up =
      let same : seen ≡ out = cc in
      let from : In x seen = rw same there in
      elim (open_ x p from up) [ inl never ↦ elim never [ ] | inr done ↦ rw (← same) done ]
  walk_closes (suc fuel) (y ∷ stack) seen {out} h open_ x p there up =
      elim (Bool-cases (elem y seen)) [
        | inl old ↦
            let again : walk fuel parents stack seen ≡ some out = rw old at h in
            walk_closes fuel stack seen {out = out} again
              (Pending-skip y stack seen (elem-In y seen old) open_) x p there up
        | inr new ↦
            let again : walk fuel parents (pushed y stack) (y ∷ seen) ≡ some out = rw new at h in
            walk_closes fuel (pushed y stack) (y ∷ seen) {out = out} again
              (Pending-enter y stack seen open_) x p there up
      ]

  -- Only ancestors of the start are seen.
  abbrev Below : ℕ → List ℕ → Type 0
  Below start ids = (x : ℕ) → In x ids → Ancestor parents start x

  Below-pushed :
      (start x : ℕ) (stack : List ℕ) → Below start (x ∷ stack) → Below start (pushed x stack)
  Below-pushed start x stack below y there =
      elim (In-append y (reverse (parents_of x parents)) stack there) [
        | inl up ↦ elim (reverse_aux-In y (parents_of x parents) [] up) [
          | inl parent ↦ further (below x (inl refl)) parent
          | inr never ↦ elim never [ ]
        ]
        | inr later ↦ below y (inr later)
      ]

  walk_sound :
      (start fuel : ℕ) (stack seen : List ℕ) {out : List ℕ}
      → walk fuel parents stack seen ≡ some out
      → Below start stack
      → Below start seen
      → Below start out
  unfolding walk
  walk_sound start zero stack seen h on done x there = cc
  walk_sound start (suc fuel) [] seen {out} h on done x there =
      (let same : seen ≡ out = cc in done x (rw same there))
  walk_sound start (suc fuel) (y ∷ stack) seen {out} h on done x there =
      elim (Bool-cases (elem y seen)) [
        | inl old ↦
            let again : walk fuel parents stack seen ≡ some out = rw old at h in
            walk_sound start fuel stack seen {out = out} again (λ z later. on z (inr later)) done x
              there
        | inr new ↦
            let again : walk fuel parents (pushed y stack) (y ∷ seen) ≡ some out = rw new at h in
            walk_sound start fuel (pushed y stack) (y ∷ seen) {out = out} again
              (Below-pushed start y stack on)
              (λ z place. elim place [ inl same ↦ on z (inl same) | inr old ↦ done z old ]) x there
      ]

  Ancestor-In :
      (start : ℕ) (out : List ℕ)
      → In start out
      → ((x p : ℕ) → In x out → In p (parents_of x parents) → In p out)
      → {id : ℕ} → Ancestor parents start id
      → In id out
  Ancestor-In start out here closed itself = here
  Ancestor-In start out here closed (further below up) =
      closed _ _ (Ancestor-In start out here closed below) up

  -- The loop of `walk_ancestors` ends, also on a map with cycles, and an id is in its result exactly
  -- when it is the start or parents lead to it from there.
  pub walk_ancestors_iff :
      (start : ℕ)
      → (walk (edges parents + 2) parents (start ∷ []) [] ≡ some (walk_ancestors start parents))
        × ((id : ℕ) → In id (walk_ancestors start parents) ↔ Ancestor parents start id)
  unfolding walk_ancestors
  walk_ancestors_iff start =
      let count = unseen_start parents in
      let (out, e) = walk_ends (edges parents + 2) (start ∷ []) [] (omega arith) in
      let here = walk_keeps (edges parents + 2) (start ∷ []) [] start e (inl (inl refl)) in
      let closed =
        walk_closes (edges parents + 2) (start ∷ []) [] e (λ x p never. elim never [ ]) in
      let sound =
        walk_sound start (edges parents + 2) (start ∷ []) [] e
          (λ x place. elim place [ inl same ↦ rw same itself | inr never ↦ elim never [ ] ])
          (λ x never. elim never [ ]) in
      rw e (refl, λ id. (sound id, Ancestor-In start out here closed))
