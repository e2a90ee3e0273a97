-- ===== src/Diff/Forward.antt =====
-- `semantic_diff` of diff.py along a line, and at one tip.
use opentheory.Base.{
  ℕ, ◌≤◌, ◌≡◌, refl, ap, ◌∙◌, ◌≢◌, inl, inr, Bool, true, false, ◌&&◌, ◌||◌, Option, none, some,
  List, [], ◌∷◌, arith, leb, ==_refl, Bool-cases, All, In, elem, elem-In, In-elem,
}
use opentheory.Evidence.Grading.{EvidenceGrade, outranks}
use opentheory.Evidence.Grounding.{position, ClaimGrounding}
use opentheory.Evidence.Yield.{unchanged, movement, record_claim, diff_claims, compute_yield}
use opentheory.Base.Text.{codes}
use opentheory.Diff.Ancestry.{Parents, walk_ancestors, ancestry_of, same_tip}
use opentheory.Diff.Walks.{Ancestor, itself, further, walk_ancestors_iff}
use opentheory.Diff.Claims.{
  Ref, Claim, ClaimSignal, quiet, contested, validated, signal_eq, any_in, no_ids, referencing,
  claim_present, signal_at, added, removed, status_changed, ClaimDelta, classify_claim_delta,
}
use opentheory.Diff.Changes.{
  Snapshot, created, insert_sorted, sorted_by, Tip, tip_at, present, delta_of, add_delta, deltas,
  grounding_or_empty, moves_of, moves, collect_instrument_outcomes, semantic_diff,
}

Ancestor-trans :
    (parents : Parents) {a b c : ℕ}
    → Ancestor parents a b
    → Ancestor parents b c
    → Ancestor parents a c
Ancestor-trans parents first itself = first
Ancestor-trans parents first (further rest up) = further (Ancestor-trans parents first rest) up

any_in_mono :
    (xs here there : List ℕ)
    → ((x : ℕ) → In x here → In x there)
    → any_in xs here ≡ true
    → any_in xs there ≡ true
any_in_mono [] here there wider h = cc
any_in_mono (x ∷ xs) here there wider h = elim (Bool-cases (elem x here)) [
  | inl old ↦ (let new = In-elem x there (wider x (elem-In x here old)) in rw new refl)
  | inr other ↦ (let rest = any_in_mono xs here there wider (rw other at h) in ground arith)
]

-- A claim that a tip shows is shown by every later tip below it.
claim_present_mono :
    (refs : List Ref) (claim : Claim) (from to : ℕ) (here there : List ℕ)
    → ((x : ℕ) → In x here → In x there)
    → from ≤ to
    → claim_present refs claim from here ≡ true
    → claim_present refs claim to there ≡ true
unfolding claim_present
claim_present_mono refs claim from to here there wider later h =
    let by = referencing (codes "claim") claim.id refs in
    elim (Bool-cases (any_in by here)) [
      | inl known ↦ (let still = any_in_mono by here there wider known in rw still refl)
      | inr not_known ↦
          let fact : (no_ids by && leb claim.created_at from) ≡ true = rw not_known at h in
          ground arith
    ]

-- A delta that does not say that a claim was removed.
abbrev pub Stays : ClaimDelta → Type 0
Stays delta = delta.change ≢ removed

change_of : {a d : ClaimDelta} → some a ≡ some d → a.change ≡ d.change
change_of {a} {d} h = (let same : a ≡ d = cc in ap (λ (x : ClaimDelta). x.change) same)

Stays-kept :
    (claim : Claim) (from_shows to_shows : Bool) (before after : ClaimSignal) {d : ClaimDelta}
    → (from_shows ≡ true → to_shows ≡ true)
    → classify_claim_delta claim from_shows to_shows before after ≡ some d
    → Stays d
unfolding classify_claim_delta
Stays-kept claim false false before after kept h = cc
Stays-kept claim false true before after kept h =
    λ bad. (let e : added ≡ removed = change_of h ∙ bad in cc)
Stays-kept claim true false before after kept h = (let bad : false ≡ true = kept refl in cc)
Stays-kept claim true true before after {d} kept h = elim (Bool-cases (signal_eq before after)) [
  | inl same ↦ (let bad : none ≡ some d = rw same at h in cc)
  | inr moved ↦ λ bad. (let e : status_changed ≡ removed = change_of (rw moved at h) ∙ bad in cc)
]

All-insert_sorted :
    {A : Type 0} (P : A → Type 0) (le : A → A → Bool) (x : A) (xs : List A)
    → P x
    → All P xs
    → All P (insert_sorted le x xs)
All-insert_sorted P le x [] h k = (h, tt)
All-insert_sorted P le x (y ∷ ys) h k = elim (Bool-cases (le x y)) [
  | inl before ↦ rw before (h, k)
  | inr after ↦ rw after (k.0, All-insert_sorted P le x ys h k.1)
]

All-sorted_by :
    {A : Type 0} (P : A → Type 0) (le : A → A → Bool) (xs : List A)
    → All P xs
    → All P (sorted_by le xs)
All-sorted_by P le [] h = tt
All-sorted_by P le (x ∷ xs) h =
    All-insert_sorted P le x (sorted_by le xs) h.0 (All-sorted_by P le xs h.1)

module _ (snapshot : Snapshot) (from to : Tip)
    (wider : (x : ℕ) → In x from.ancestors → In x to.ancestors)
    (later : from.created_at ≤ to.created_at) where
  add_delta-Stays :
      (claim : Claim) (o : Option ClaimDelta) (rest : List ClaimDelta)
      → delta_of snapshot from to claim ≡ o
      → All Stays rest
      → All Stays (add_delta o rest)
  unfolding claim_present signal_at classify_claim_delta
  add_delta-Stays claim none rest h others = others
  add_delta-Stays claim (some d) rest h others = (
    Stays-kept claim (present snapshot from claim) (present snapshot to claim) _ _
        (claim_present_mono snapshot.refs claim from.created_at to.created_at from.ancestors
          to.ancestors wider later)
        h,
    others,
  )

  deltas-Stays : (claims : List Claim) → All Stays (deltas snapshot from to claims)
  unfolding claim_present signal_at classify_claim_delta
  deltas-Stays [] = tt
  deltas-Stays (claim ∷ claims) =
      add_delta-Stays claim (delta_of snapshot from to claim) (deltas snapshot from to claims) refl
        (deltas-Stays claims)

-- From a checkpoint to a later one that descends from it, no claim is reported as removed.
pub semantic_diff-Stays :
    (snapshot : Snapshot) (from to : ℕ)
    → Ancestor snapshot.parent_map to from
    → created snapshot.checkpoints from ≤ created snapshot.checkpoints to
    → All Stays (semantic_diff snapshot from to).claims
unfolding semantic_diff walk_ancestors claim_present signal_at classify_claim_delta
semantic_diff-Stays snapshot from to down later =
    let of_from = (walk_ancestors_iff snapshot.parent_map from).1 in
    let of_to = (walk_ancestors_iff snapshot.parent_map to).1 in
    All-sorted_by Stays _ (deltas snapshot (tip_at snapshot from) (tip_at snapshot to) _) (
      deltas-Stays snapshot (tip_at snapshot from) (tip_at snapshot to)
        (λ x there. (of_to x).1 (Ancestor-trans snapshot.parent_map down ((of_from x).0 there)))
        later _)

signal_same : (s : ClaimSignal) → signal_eq s s ≡ true
signal_same quiet = refl
signal_same contested = refl
signal_same validated = refl

classify_same :
    (claim : Claim) (b : Bool) (s : ClaimSignal) → classify_claim_delta claim b b s s ≡ none
unfolding classify_claim_delta
classify_same claim true s = rw (signal_same s)
classify_same claim false s = refl

deltas_same :
    (snapshot : Snapshot) (tip : Tip) (claims : List Claim) → deltas snapshot tip tip claims ≡ []
unfolding claim_present signal_at classify_claim_delta
deltas_same snapshot tip [] = refl
deltas_same snapshot tip (claim ∷ claims) =
    rw (classify_same claim (present snapshot tip claim) _, deltas_same snapshot tip claims)

outranks_self : (o : Option EvidenceGrade) → outranks o o ≡ false
outranks_self none = refl
outranks_self (some grade) = ground arith

movement_same : (g : ClaimGrounding) → movement g g ≡ unchanged
unfolding movement
movement_same g = rw (==_refl (position g.headline), outranks_self g.support) (ground arith)

yield_same :
    (id : ℕ) (g : ClaimGrounding)
    → (compute_yield (id ∷ []) (λ x. some g) (λ x. some g)).changed ≡ []
unfolding compute_yield diff_claims record_claim
yield_same id g = rw (movement_same g, ==_refl (position g.headline))

moves_of_same :
    (snapshot : Snapshot) (tip : Tip) (claim : Claim) → moves_of snapshot tip tip claim ≡ []
moves_of_same snapshot tip claim =
    elim (Bool-cases (present snapshot tip claim || present snapshot tip claim)) [
      | inl shown ↦ rw (shown, yield_same claim.id (grounding_or_empty snapshot tip claim))
      | inr absent ↦ rw absent
    ]

moves_same :
    (snapshot : Snapshot) (tip : Tip) (claims : List Claim) → moves snapshot tip tip claims ≡ []
moves_same snapshot tip [] = refl
moves_same snapshot tip (claim ∷ claims) =
    rw (moves_of_same snapshot tip claim, moves_same snapshot tip claims)

-- The diff of a tip with itself is empty.
pub semantic_diff_same :
    (snapshot : Snapshot) (tip : ℕ)
    → semantic_diff snapshot tip tip ≡ record {
      empty = true;
      claims = [];
      grounding = [];
      instruments = [];
      ancestry = same_tip tip;
    }
unfolding semantic_diff ancestry_of collect_instrument_outcomes
semantic_diff_same snapshot tip = rw (
  ==_refl tip,
  deltas_same snapshot (tip_at snapshot tip) _,
  moves_same snapshot (tip_at snapshot tip) _,
)
