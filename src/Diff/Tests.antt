-- ===== src/Diff/Tests.antt =====
-- Runs of the diff, and the theorems at concrete inputs.
use opentheory.Base.{
  ℕ, ◌+◌, ◌<◌, ◌≡◌, refl, ◌↔◌, inl, inr, true, Option, none, some, List, [], ◌∷◌, arith, All, In,
  Bool-cases, ◌==◌, ◌≢◌,
}
use opentheory.Base.Text.{Text, codes}
use opentheory.Diff.Ancestry.{
  Parents, parents_of, walk, edges, walk_ancestors, lowest_common_ancestor, same_tip,
}
use opentheory.Diff.Walks.{Ancestor, itself, further, walk_ancestors_iff}
use opentheory.Diff.Bases.{parents_fall, IsLowest, lowest_common_ancestor-IsLowest}
use opentheory.Diff.Claims.{added, claim_present, signal_at, classify_claim_delta}
use opentheory.Diff.Changes.{Node, Snapshot, semantic_diff}
use opentheory.Base.Http.{server_error, ok, err}
use opentheory.Ledger.Store.{open_line, Branch, authored, Checkpoint, Db, find_branch}
use opentheory.Ledger.Validity.{IsValid}
use opentheory.Diff.Refs.{branch, ResolvedRef, resolve_ref}
use opentheory.Diff.Placing.{IsKeyed, Placed, resolve_ref-Placed}
use opentheory.Diff.Forward.{Stays, semantic_diff-Stays, semantic_diff_same}

-- A fork at 2 whose two lines, 3 and 4, are merged in 5.
abbrev diamond : Parents
diamond = (5, 3 ∷ 4 ∷ []) ∷ (4, 2 ∷ []) ∷ (3, 2 ∷ []) ∷ (2, 1 ∷ []) ∷ (1, []) ∷ []

-- A map with a cycle.
abbrev cycle : Parents
cycle = (1, 2 ∷ []) ∷ (2, 1 ∷ []) ∷ []

diamond_ancestors : walk_ancestors 5 diamond ≡ 3 ∷ 1 ∷ 2 ∷ 4 ∷ 5 ∷ []
unfolding walk_ancestors walk
diamond_ancestors = refl

cycle_ancestors : walk_ancestors 1 cycle ≡ 2 ∷ 1 ∷ []
unfolding walk_ancestors walk
cycle_ancestors = refl

walk_ancestors_iff_example :
    (walk (edges cycle + 2) cycle (1 ∷ []) [] ≡ some (walk_ancestors 1 cycle))
    × ((id : ℕ) → In id (walk_ancestors 1 cycle) ↔ Ancestor cycle 1 id)
walk_ancestors_iff_example = walk_ancestors_iff cycle 1

falls : (x p : ℕ) → In p (parents_of x diamond) → p < x
falls = parents_fall diamond (omega arith)

abbrev clock : ℕ → ℕ
clock id = id

lowest_common_ancestor-IsLowest_example :
    (m : ℕ) × (lowest_common_ancestor
        (walk_ancestors 3 diamond)
        (walk_ancestors 4 diamond)
        diamond
        clock
      ≡ some m)
    × IsLowest diamond 3 4 m
lowest_common_ancestor-IsLowest_example =
    lowest_common_ancestor-IsLowest diamond clock clock 3 4 2 falls (further itself (inl refl))
      (further itself (inl refl))

abbrev node : ℕ → Node
node id = record { id = id; summary = []; created_at = id; tool_invocations = [] }

abbrev snapshot : Snapshot
snapshot = record {
  checkpoints = node 5 ∷ node 4 ∷ node 3 ∷ node 2 ∷ node 1 ∷ [];
  parent_map = diamond;
  refs =
      record {
        checkpoint_id = 3;
        target_type = codes "claim";
        target_id = 7;
        role = codes "evidenced";
      }
      ∷ [];
  claims = record { id = 7; statement = codes "c"; created_at = 3 } ∷ [];
  validations = [];
  links = [];
}

merged_claim :
    (semantic_diff snapshot 4 5).claims
    ≡ record {
      claim_id = 7;
      statement = codes "c";
      change = added;
      from_signal = none;
      to_signal = some (signal_at snapshot.refs [] 7 (walk_ancestors 5 diamond));
    }
      ∷ []
unfolding semantic_diff walk_ancestors walk claim_present signal_at classify_claim_delta
merged_claim = refl

semantic_diff-Stays_example : All Stays (semantic_diff snapshot 4 5).claims
semantic_diff-Stays_example =
    semantic_diff-Stays snapshot 4 5 (further itself (inr (inl refl))) (omega arith)

semantic_diff_same_example :
    semantic_diff snapshot 5 5
    ≡ record { empty = true; claims = []; grounding = []; instruments = []; ancestry = same_tip 5 }
semantic_diff_same_example = semantic_diff_same snapshot 5

abbrev uuid : Text → Option ℕ
uuid s = none

abbrev lower : Text → Text
lower s = s

abbrev row : ℕ → Option ℕ → List ℕ → Checkpoint
row id line parents = record {
  id = id;
  project_id = 1;
  thread_id = none;
  branch_id = line;
  author_id = 7;
  sponsored_by_actor_id = none;
  stage = none;
  summary = codes "note";
  content = authored (codes "{}");
  notes = none;
  tool_invocations = [];
  parents = parents;
}

abbrev idea : ℕ → Branch
idea id = record {
  id = id;
  project_id = 1;
  thread_id = none;
  forked_from_checkpoint_id = some 10;
  name = codes "idea";
  reason = none;
  status = open_line;
}

-- The root 10 on the main line, and 12 on a branch.
abbrev ledger : Db
ledger = record {
  projects = 1 ∷ [];
  threads = [];
  claims = [];
  evidence = [];
  artifacts = [];
  validations = [];
  branches = idea 11 ∷ [];
  checkpoints = row 12 (some 11) (10 ∷ []) ∷ row 10 none [] ∷ [];
  refs = [];
  contributions =
      record {
        project_id = 1;
        actor_id = 7;
        checkpoint_id = 12;
        action = "created";
        target_type = "checkpoint";
        target_id = 12;
      }
      ∷ record {
        project_id = 1;
        actor_id = 7;
        checkpoint_id = 10;
        action = "created";
        target_type = "checkpoint";
        target_id = 10;
      }
      ∷ [];
  tags = [];
  next_id = 13;
}

abbrev idea_ref : ResolvedRef
idea_ref = record {
  input = codes "idea";
  kind = branch;
  checkpoint_id = 12;
  branch_id = some 11;
  tag_id = none;
  label = codes "idea";
}

only_idea : (id : ℕ) (b : Branch) → find_branch id ledger.branches ≡ some b → idea 11 ≡ b
only_idea id b found = elim (Bool-cases (11 == id)) [
  | inl here ↦ (let e : some (idea 11) ≡ some b = rw here at found in cc)
  | inr there ↦ (let bad : none ≡ some b = rw there at found in cc)
]

idea_ids : (id : ℕ) → find_branch id ledger.branches ≢ none → id < 13
idea_ids id given = elim (Bool-cases (11 == id)) [
  | inl here ↦ ground arith
  | inr there ↦ elim (given (rw there refl)) [ ]
]

ledger-IsValid : IsValid ledger
ledger-IsValid = record {
  history = (
    omega arith,
    refl,
    (refl, tt),
    refl,
    refl,
    refl,
    (omega arith, refl, tt, refl, refl, tt, tt),
  );
  ids_used = idea_ids;
  branches_known = λ id b found. rw (← only_idea id b found) (refl, refl);
  credits = refl;
}

ledger-IsKeyed : IsKeyed ledger
ledger-IsKeyed = record { branch_ids = keyed; tag_pins = λ tag there. elim there [ ] }
  where
    keyed : (b : Branch) → In b ledger.branches → find_branch b.id ledger.branches ≡ some b
    keyed b (inl same) = rw (← same) refl
    keyed b (inr later) = elim later [ ]

idea_resolves : resolve_ref uuid lower ledger 1 (codes " idea ") ≡ ok idea_ref
unfolding resolve_ref
idea_resolves = refl

-- A second fork under the name of the first leaves neither to be named.
two_ideas :
    resolve_ref uuid lower (record ledger { branches = idea 13 ∷ ledger.branches }) 1 (codes "idea")
    ≡ err server_error
unfolding resolve_ref
two_ideas = refl

resolve_ref-Placed_example : Placed ledger 1 idea_ref
resolve_ref-Placed_example =
    resolve_ref-Placed uuid lower ledger 1 (codes " idea ") ledger-IsValid ledger-IsKeyed
      idea_resolves
