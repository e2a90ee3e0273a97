-- ===== src/Base/Lists.antt =====
-- Lists over native numbers: length, membership tests, predicates on every element.
use Prim.Native.Nat.{ℕ, suc, ◌+◌}
use mathlib.Core.Path.{◌≡◌, sym}
use mathlib.Core.Logic.{◌⊎◌, inl, inr}
use mathlib.Core.Bool.{Bool, true, false, ◌||◌}
use mathlib.Core.List.{List, [], ◌∷◌, ◌++◌}
use native.Mathlib.Omega.{arith}
use opentheory.Base.Tests.{◌==◌, ==_iff, if◌then◌else◌, Bool-cases}

module _ {ℓ} {A : Type ℓ} where
  abbrev pub length : List A → ℕ
  length [] = 0
  length (_ ∷ xs) = suc (length xs)

  pub length-append : (xs ys : List A) → length (xs ++ ys) ≡ length xs + length ys
  length-append [] ys = omega arith
  length-append (_ ∷ xs) ys = omega (arith, length-append xs ys)

  -- A predicate that holds of every element.
  abbrev pub All {κ} : (A → Type κ) → List A → Type κ
  All P [] = Unit
  All P (first ∷ others) = P first × All P others

  pub All-append {κ} :
      (P : A → Type κ) (front back : List A) → All P front → All P back → All P (front ++ back)
  All-append P [] back none_here holds = holds
  All-append P (first ∷ others) back here holds = (here.0, All-append P others back here.1 holds)

  pub All-map {κ₁ κ₂} :
      (P : A → Type κ₁) (Q : A → Type κ₂)
      → ((x : A) → P x → Q x)
      → (xs : List A) → All P xs
      → All Q xs
  All-map P Q weaken [] holds = tt
  All-map P Q weaken (first ∷ others) holds =
      (weaken first holds.0, All-map P Q weaken others holds.1)

module _ {A : Type 0} where
  -- `x` stands in the list.
  abbrev pub In : A → List A → Type 0
  In x [] = ⊥
  In x (y ∷ ys) = (y ≡ x) ⊎ In x ys

  pub All-In {κ} : (P : A → Type κ) (xs : List A) (x : A) → All P xs → In x xs → P x
  All-In P [] x holds h = elim h [ ]
  All-In P (y ∷ ys) x holds (inl same) = rw (← same) holds.0
  All-In P (y ∷ ys) x holds (inr later) = All-In P ys x holds.1 later

  pub In-append_left : (x : A) (xs ys : List A) → In x xs → In x (xs ++ ys)
  In-append_left x [] ys h = elim h [ ]
  In-append_left x (y ∷ xs) ys (inl e) = inl e
  In-append_left x (y ∷ xs) ys (inr h) = inr (In-append_left x xs ys h)

  pub In-append_right : (x : A) (xs ys : List A) → In x ys → In x (xs ++ ys)
  In-append_right x [] ys h = h
  In-append_right x (y ∷ xs) ys h = inr (In-append_right x xs ys h)

  pub In-append : (x : A) (xs ys : List A) → In x (xs ++ ys) → In x xs ⊎ In x ys
  In-append x [] ys h = inr h
  In-append x (y ∷ xs) ys (inl e) = inl (inl e)
  In-append x (y ∷ xs) ys (inr h) = elim (In-append x xs ys h) [
    | inl left ↦ inl (inr left)
    | inr right ↦ inr right
  ]

-- `x in xs`, on ids
abbrev pub elem : ℕ → List ℕ → Bool
elem x [] = false
elem x (y ∷ ys) = x == y || elem x ys

-- `if x in seen: continue; seen.add(x); out.append(x)`: the first occurrences, in order.
abbrev pub dedup : List ℕ → List ℕ → List ℕ
dedup seen [] = []
dedup seen (x ∷ xs) =
    let rest = dedup (if elem x seen then seen else x ∷ seen) xs in
    if elem x seen then rest else x ∷ rest

pub elem-In : (x : ℕ) (xs : List ℕ) → elem x xs ≡ true → In x xs
elem-In x [] h = cc
elem-In x (y ∷ ys) h = elim (Bool-cases (x == y)) [
  | inl same ↦ inl (sym ((==_iff x y).0 same))
  | inr other ↦ inr (elem-In x ys (rw other at h))
]

pub In-elem : (x : ℕ) (xs : List ℕ) → In x xs → elem x xs ≡ true
In-elem x [] h = elim h [ ]
In-elem x (y ∷ ys) (inl same) = ground arith
In-elem x (y ∷ ys) (inr later) = ground (arith, In-elem x ys later)
