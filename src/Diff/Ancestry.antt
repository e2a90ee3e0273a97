-- ===== src/Diff/Ancestry.antt =====
-- backend/app/services/diff.py: ancestor closures, the merge base, and the order of ids. A set is the
-- list of its members, and a checkpoint that has no date reads as the earliest.
use opentheory.Base.{
  ℕ, zero, suc, ◌+◌, Bool, true, false, not, ◌&&◌, ◌||◌, Option, none, some, List, [], ◌∷◌, ◌++◌,
  ltb, leb, ◌==◌, if◌then◌else◌, length, elem,
}
use mathlib.Core.List.{reverse}

-- `parent_map`
abbrev pub Parents : Type 0
Parents = List (ℕ × List ℕ)

-- `parent_map.get(id, ())`
abbrev pub parents_of : ℕ → Parents → List ℕ
parents_of id [] = []
parents_of id ((child, parents) ∷ rest) = if child == id then parents else parents_of id rest

-- The loop, on fuel; the top of the stack is the head of the list.
unfoldable pub walk : ℕ → Parents → List ℕ → List ℕ → Option (List ℕ)
walk zero parents stack seen = none
walk (suc fuel) parents [] seen = some seen
walk (suc fuel) parents (current ∷ stack) seen =
    let skipped = walk fuel parents stack seen in
    let entered =
      walk fuel parents (reverse (parents_of current parents) ++ stack) (current ∷ seen) in
    if elem current seen then skipped else entered

-- How many entries the lists of the map have together.
abbrev pub edges : Parents → ℕ
edges [] = 0
edges ((child, parents) ∷ rest) = length parents + edges rest

abbrev pub or_nothing : Option (List ℕ) → List ℕ
or_nothing none = []
or_nothing (some ids) = ids

unfoldable pub walk_ancestors : ℕ → Parents → List ℕ
walk_ancestors start parents = or_nothing (walk (edges parents + 2) parents (start ∷ []) [])

-- `a & b`, `a - b` and `a | b` on sets.
abbrev pub meet : List ℕ → List ℕ → List ℕ
meet [] ids = []
meet (x ∷ xs) ids = let rest = meet xs ids in if elem x ids then x ∷ rest else rest

abbrev pub minus : List ℕ → List ℕ → List ℕ
minus [] ids = []
minus (x ∷ xs) ids = let rest = minus xs ids in if elem x ids then rest else x ∷ rest

-- The ancestors of the given parents.
unfoldable pub above_all : List ℕ → Parents → List ℕ
above_all [] parents = []
above_all (parent ∷ rest) parents = walk_ancestors parent parents ++ above_all rest parents

unfoldable pub proper_ancestors : List ℕ → Parents → List ℕ
proper_ancestors [] parents = []
proper_ancestors (node ∷ nodes) parents =
    above_all (parents_of node parents) parents ++ proper_ancestors nodes parents

-- The order by `(created_at, id)`.
abbrev pub before : (ℕ → ℕ) → ℕ → ℕ → Bool
before created a b = ltb (created a) (created b) || (created a == created b && leb a b)

unfoldable pub newest_of : (ℕ → ℕ) → ℕ → List ℕ → ℕ
newest_of created best [] = best
newest_of created best (id ∷ ids) =
    newest_of created (if before created best id then id else best) ids

-- The first of the list that is sorted with the newest first.
abbrev pub first_newest : (ℕ → ℕ) → List ℕ → Option ℕ
first_newest created [] = none
first_newest created (id ∷ ids) = some (newest_of created id ids)

abbrev pub or_all : List ℕ → List ℕ → List ℕ
or_all [] all = all
or_all (id ∷ ids) all = id ∷ ids

unfoldable pub lowest_common_ancestor : List ℕ → List ℕ → Parents → (ℕ → ℕ) → Option ℕ
lowest_common_ancestor from_anc to_anc parents created =
    let common = meet from_anc to_anc in
    first_newest created (or_all (minus common (proper_ancestors common parents)) common)

abbrev pub insert_by : (ℕ → ℕ) → ℕ → List ℕ → List ℕ
insert_by created id [] = id ∷ []
insert_by created id (first ∷ rest) =
    if before created id first then id ∷ first ∷ rest else first ∷ insert_by created id rest

unfoldable pub sort_checkpoint_ids : List ℕ → (ℕ → ℕ) → List ℕ
sort_checkpoint_ids [] created = []
sort_checkpoint_ids (id ∷ ids) created = insert_by created id (sort_checkpoint_ids ids created)

pub record Ancestry : Type 0 where
  pub from_is_ancestor_of_to : Bool
  pub to_is_ancestor_of_from : Bool
  pub diverged : Bool
  pub merge_base_id : Option ℕ
  pub interval_checkpoint_ids : List ℕ
  pub from_only_checkpoint_ids : List ℕ
  pub to_only_checkpoint_ids : List ℕ

abbrev pub is_empty : List ℕ → Bool
is_empty [] = true
is_empty _ = false

abbrev pub same_tip : ℕ → Ancestry
same_tip tip = record {
  from_is_ancestor_of_to = false;
  to_is_ancestor_of_from = false;
  diverged = false;
  merge_base_id = some tip;
  interval_checkpoint_ids = [];
  from_only_checkpoint_ids = [];
  to_only_checkpoint_ids = [];
}

-- The ancestry of two tips, as `semantic_diff` computes it.
unfoldable pub ancestry_of : ℕ → ℕ → Parents → (ℕ → ℕ) → Ancestry
ancestry_of from_tip to_tip parents created =
    let from_anc = walk_ancestors from_tip parents in
    let to_anc = walk_ancestors to_tip parents in
    let from_only = minus from_anc to_anc in
    let to_only = minus to_anc from_anc in
    if from_tip == to_tip then same_tip from_tip else record {
      from_is_ancestor_of_to = elem from_tip to_anc && not (from_tip == to_tip);
      to_is_ancestor_of_from = elem to_tip from_anc && not (from_tip == to_tip);
      diverged = not (is_empty from_only) && not (is_empty to_only);
      merge_base_id = lowest_common_ancestor from_anc to_anc parents created;
      interval_checkpoint_ids = sort_checkpoint_ids to_only created;
      from_only_checkpoint_ids = sort_checkpoint_ids from_only created;
      to_only_checkpoint_ids = sort_checkpoint_ids to_only created;
    }
