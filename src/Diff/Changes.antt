-- ===== src/Diff/Changes.antt =====
-- `semantic_diff` of diff.py on the rows that it loads, between two tips that were resolved.
use opentheory.Base.{
  ℕ, Bool, true, false, ◌&&◌, ◌||◌, Option, none, some, List, [], ◌∷◌, ◌++◌, ltb, leb, ◌==◌,
  if◌then◌else◌, dedup,
}
use opentheory.Base.Text.{Text, codes, text_eq, text_le}
use opentheory.Evidence.Grounding.{Json, string, GroundingHeadline, instrument_of, ClaimGrounding}
use opentheory.Evidence.Yield.{ClaimMovement, ClaimYield, empty_grounding, compute_yield}
use opentheory.Diff.Ancestry.{Parents, walk_ancestors, Ancestry, ancestry_of}
use opentheory.Diff.Claims.{
  Ref, Claim, Validation, EvidenceLink, claim_present, signal_at, grounding_at, ClaimDelta,
  classify_claim_delta,
}

-- An entry of `tool_invocations` that is a dictionary, under the two keys that are read; any other
-- entry is `none`.
pub record Invocation : Type 0 where
  pub instrument : Option Json
  pub status : Option Json

pub record Node : Type 0 where
  pub id : ℕ
  pub summary : Text
  pub created_at : ℕ
  pub tool_invocations : List (Option Invocation)

-- The rows of one project.
pub record Snapshot : Type 0 where
  pub checkpoints : List Node
  pub parent_map : Parents
  pub refs : List Ref
  pub claims : List Claim
  pub validations : List Validation
  pub links : List EvidenceLink

pub record GroundingMove : Type 0 where
  pub claim_id : ℕ
  pub statement : Text
  pub from_headline : GroundingHeadline
  pub to_headline : GroundingHeadline
  pub movement : ClaimMovement

pub record InstrumentOutcome : Type 0 where
  pub checkpoint_id : ℕ
  pub instrument : Text
  pub status : Text
  pub claim_ids : List ℕ
  pub summary : Text

-- A stable sort by `le`.
module _ {A : Type 0} (le : A → A → Bool) where
  abbrev pub insert_sorted : A → List A → List A
  insert_sorted x [] = x ∷ []
  insert_sorted x (y ∷ ys) = if le x y then x ∷ y ∷ ys else y ∷ insert_sorted x ys

  abbrev pub sorted_by : List A → List A
  sorted_by [] = []
  sorted_by (x ∷ xs) = insert_sorted x (sorted_by xs)

abbrev pub find_node : ℕ → List Node → Option Node
find_node id [] = none
find_node id (node ∷ nodes) = if node.id == id then some node else find_node id nodes

abbrev pub date_of : Option Node → ℕ
date_of none = 0
date_of (some node) = node.created_at

-- `created_at.get(id, datetime.min)`
abbrev pub created : List Node → ℕ → ℕ
created nodes id = date_of (find_node id nodes)

-- `_instrument_status`, on a status that is hashable: on a list or an object the code's `in` raises.
abbrev pub instrument_status : Option Json → Option Text
instrument_status (some (string s)) =
    if text_eq s (codes "result") || (text_eq s (codes "refuted") || text_eq s (codes "undecided"))
    then some s
    else none
instrument_status _ = none

abbrev pub outcome_of :
    Node → List ℕ → Option Text → Option Text → List InstrumentOutcome → List InstrumentOutcome
outcome_of node claims (some instrument) (some status) rest =
    record {
      checkpoint_id = node.id;
      instrument = instrument;
      status = status;
      claim_ids = claims;
      summary = node.summary;
    }
    ∷ rest
outcome_of node claims _ _ rest = rest

abbrev pub node_outcomes : Node → List ℕ → List (Option Invocation) → List InstrumentOutcome
node_outcomes node claims [] = []
node_outcomes node claims (none ∷ entries) = node_outcomes node claims entries
node_outcomes node claims (some entry ∷ entries) =
    outcome_of node claims (instrument_of entry.instrument) (instrument_status entry.status)
      (node_outcomes node claims entries)

abbrev pub outcomes_at : Option Node → List ℕ → List InstrumentOutcome
outcomes_at none claims = []
outcomes_at (some node) claims = node_outcomes node claims node.tool_invocations

-- `claim_ids_by_checkpoint`
abbrev pub evidenced_at : ℕ → List Ref → List ℕ
evidenced_at id [] = []
evidenced_at id (ref ∷ refs) =
    let rest = evidenced_at id refs in
    if ref.checkpoint_id == id
      && (text_eq ref.target_type (codes "claim") && text_eq ref.role (codes "evidenced"))
    then ref.target_id ∷ rest
    else rest

abbrev pub outcome_le : List Node → InstrumentOutcome → InstrumentOutcome → Bool
outcome_le nodes a b =
    let x = created nodes a.checkpoint_id in
    let y = created nodes b.checkpoint_id in
    ltb x y
    || (x == y
        && (ltb a.checkpoint_id b.checkpoint_id
            || (a.checkpoint_id == b.checkpoint_id && text_le a.instrument b.instrument)))

abbrev pub collect_all : List ℕ → List Node → List Ref → List InstrumentOutcome
collect_all [] nodes refs = []
collect_all (id ∷ ids) nodes refs =
    outcomes_at (find_node id nodes) (sorted_by leb (dedup [] (evidenced_at id refs)))
    ++ collect_all ids nodes refs

unfoldable pub collect_instrument_outcomes : List ℕ → List Node → List Ref → List InstrumentOutcome
collect_instrument_outcomes ids nodes refs =
    sorted_by (outcome_le nodes) (collect_all ids nodes refs)

-- By date, then by id.
abbrev pub by_date : ℕ → ℕ → ℕ → ℕ → Bool
by_date date id date' id' = ltb date date' || (date == date' && leb id id')

abbrev pub in_order : List Validation → List Validation
in_order rows = sorted_by (λ (a b : Validation). by_date a.created_at a.id b.created_at b.id) rows

-- One end of the diff.
pub record Tip : Type 0 where
  pub created_at : ℕ
  pub ancestors : List ℕ

abbrev pub tip_at : Snapshot → ℕ → Tip
unfolding walk_ancestors
tip_at snapshot id = record {
  created_at = created snapshot.checkpoints id;
  ancestors = walk_ancestors id snapshot.parent_map;
}

abbrev pub present : Snapshot → Tip → Claim → Bool
unfolding claim_present
present snapshot tip claim = claim_present snapshot.refs claim tip.created_at tip.ancestors

abbrev pub delta_of : Snapshot → Tip → Tip → Claim → Option ClaimDelta
unfolding claim_present signal_at classify_claim_delta
delta_of snapshot from to claim =
    let validations = in_order snapshot.validations in
    classify_claim_delta claim (present snapshot from claim) (present snapshot to claim)
      (signal_at snapshot.refs validations claim.id from.ancestors)
      (signal_at snapshot.refs validations claim.id to.ancestors)

abbrev pub add_delta : Option ClaimDelta → List ClaimDelta → List ClaimDelta
add_delta none rest = rest
add_delta (some delta) rest = delta ∷ rest

abbrev pub deltas : Snapshot → Tip → Tip → List Claim → List ClaimDelta
deltas snapshot from to [] = []
deltas snapshot from to (claim ∷ claims) =
    add_delta (delta_of snapshot from to claim) (deltas snapshot from to claims)

abbrev pub grounding_or_empty : Snapshot → Tip → Claim → ClaimGrounding
grounding_or_empty snapshot tip claim =
    if present snapshot tip claim
    then grounding_at snapshot.refs snapshot.links claim.id tip.created_at tip.ancestors
    else empty_grounding

abbrev pub move_of : Claim → List ClaimYield → List GroundingMove
move_of claim [] = []
move_of claim (row ∷ rows) =
    record {
      claim_id = row.claim_id;
      statement = claim.statement;
      from_headline = row.before;
      to_headline = row.after;
      movement = row.movement;
    }
    ∷ move_of claim rows

abbrev pub moves_of : Snapshot → Tip → Tip → Claim → List GroundingMove
moves_of snapshot from to claim =
    if present snapshot from claim || present snapshot to claim
    then move_of claim
        (compute_yield (claim.id ∷ []) (λ id. some (grounding_or_empty snapshot from claim))
          (λ id. some (grounding_or_empty snapshot to claim))).changed
    else []

abbrev pub moves : Snapshot → Tip → Tip → List Claim → List GroundingMove
moves snapshot from to [] = []
moves snapshot from to (claim ∷ claims) =
    moves_of snapshot from to claim ++ moves snapshot from to claims

pub record SemanticDiff : Type 0 where
  pub empty : Bool
  pub claims : List ClaimDelta
  pub grounding : List GroundingMove
  pub instruments : List InstrumentOutcome
  pub ancestry : Ancestry

abbrev pub no_deltas : List ClaimDelta → Bool
no_deltas [] = true
no_deltas _ = false

abbrev pub no_moves : List GroundingMove → Bool
no_moves [] = true
no_moves _ = false

abbrev pub no_outcomes : List InstrumentOutcome → Bool
no_outcomes [] = true
no_outcomes _ = false

unfoldable pub semantic_diff : Snapshot → ℕ → ℕ → SemanticDiff
semantic_diff snapshot from_id to_id =
    let from = tip_at snapshot from_id in
    let to = tip_at snapshot to_id in
    let ancestry = ancestry_of from_id to_id snapshot.parent_map (created snapshot.checkpoints) in
    let claims =
      sorted_by (λ (a b : Claim). by_date a.created_at a.id b.created_at b.id) snapshot.claims in
    let deltas =
      sorted_by (λ (a b : ClaimDelta). leb a.claim_id b.claim_id)
        (deltas snapshot from to claims) in
    let moved =
      sorted_by (λ (a b : GroundingMove). leb a.claim_id b.claim_id)
        (moves snapshot from to claims) in
    let outcomes =
      collect_instrument_outcomes ancestry.interval_checkpoint_ids snapshot.checkpoints
        snapshot.refs in
    record {
      empty = no_deltas deltas && (no_moves moved && no_outcomes outcomes);
      claims = deltas;
      grounding = moved;
      instruments = outcomes;
      ancestry = ancestry;
    }
