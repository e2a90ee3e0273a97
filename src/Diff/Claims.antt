-- ===== src/Diff/Claims.antt =====
-- backend/app/services/diff.py: which claims a tip shows, with their signal (claims.py) and their
-- grounding, and how a claim differs between two tips. Times are in microseconds.
use opentheory.Base.{
  ℕ, Bool, true, false, not, ◌&&◌, ◌||◌, Option, none, some, List, [], ◌∷◌, leb, ◌==◌,
  if◌then◌else◌, opt_eq, elem,
}
use opentheory.Base.Text.{Text, codes, text_eq}
use opentheory.Evidence.Grounding.{Link, ClaimGrounding, compute_grounding}

pub data ValidationOutcome : Type 0 where
  passed failed inconclusive needs_reproduction contradicts retract : ValidationOutcome

pub data ClaimSignal : Type 0 where
  quiet contested validated : ClaimSignal

abbrev pub signal_eq : ClaimSignal → ClaimSignal → Bool
signal_eq quiet quiet = true
signal_eq contested contested = true
signal_eq validated validated = true
signal_eq _ _ = false

-- The two flags of the loop of `compute_signal`.
pub record Standing : Type 0 where
  pub contested : Bool
  pub validated : Bool

abbrev pub hear : ValidationOutcome → Standing → Standing
hear contradicts s = record s { contested = true }
hear failed s = record s { contested = true }
hear retract s = record s { contested = false }
hear passed s = record s { validated = true }
hear _ s = s

abbrev pub signal_of : Standing → ClaimSignal
signal_of s = if s.contested then contested else if s.validated then validated else quiet

abbrev pub hear_all : List ValidationOutcome → Standing → Standing
hear_all [] s = s
hear_all (outcome ∷ outcomes) s = hear_all outcomes (hear outcome s)

unfoldable pub compute_signal : List ValidationOutcome → ClaimSignal
compute_signal outcomes =
    signal_of (hear_all outcomes (record { contested = false; validated = false }))

-- A row of `checkpoint_refs`.
pub record Ref : Type 0 where
  pub checkpoint_id : ℕ
  pub target_type : Text
  pub target_id : ℕ
  pub role : Text

pub record Claim : Type 0 where
  pub id : ℕ
  pub statement : Text
  pub created_at : ℕ

pub record Validation : Type 0 where
  pub id : ℕ
  pub claim_id : Option ℕ
  pub outcome : ValidationOutcome
  pub created_at : ℕ

-- A link of a claim to evidence, with the date of the evidence.
pub record EvidenceLink : Type 0 where
  pub claim_id : ℕ
  pub evidence_id : ℕ
  pub link : Link
  pub created_at : ℕ

abbrev pub targets : Text → ℕ → Ref → Bool
targets type id ref = text_eq ref.target_type type && ref.target_id == id

-- `referenced_by[id]` and `recorded_evidence[id]`
abbrev pub referencing : Text → ℕ → List Ref → List ℕ
referencing type id [] = []
referencing type id (ref ∷ refs) =
    let rest = referencing type id refs in
    if targets type id ref then ref.checkpoint_id ∷ rest else rest

-- `a & b`, as a test.
abbrev pub any_in : List ℕ → List ℕ → Bool
any_in [] ids = false
any_in (x ∷ xs) ids = elem x ids || any_in xs ids

abbrev pub no_ids : List ℕ → Bool
no_ids [] = true
no_ids _ = false

-- `_claim_present`
unfoldable pub claim_present : List Ref → Claim → ℕ → List ℕ → Bool
claim_present refs claim tip_created ancestors =
    let by = referencing (codes "claim") claim.id refs in
    any_in by ancestors || (no_ids by && leb claim.created_at tip_created)

-- `recording_validation.get(id)`
abbrev pub recording : ℕ → List Ref → Option ℕ
recording id [] = none
recording id (ref ∷ refs) =
    if targets (codes "validation") id ref && text_eq ref.role (codes "recorded")
    then some ref.checkpoint_id
    else recording id refs

abbrev pub recorded_in : List ℕ → Option ℕ → Bool
recorded_in ancestors none = false
recorded_in ancestors (some checkpoint) = elem checkpoint ancestors

abbrev pub is_visible : List Ref → ℕ → List ℕ → Validation → Bool
is_visible refs claim ancestors row =
    opt_eq row.claim_id (some claim) && recorded_in ancestors (recording row.id refs)

abbrev pub visible_outcomes : List Ref → ℕ → List ℕ → List Validation → List ValidationOutcome
visible_outcomes refs claim ancestors [] = []
visible_outcomes refs claim ancestors (row ∷ rows) =
    let rest = visible_outcomes refs claim ancestors rows in
    if is_visible refs claim ancestors row then row.outcome ∷ rest else rest

-- `_signal_at`, on validations in chronological order.
unfoldable pub signal_at : List Ref → List Validation → ℕ → List ℕ → ClaimSignal
signal_at refs validations claim ancestors =
    compute_signal (visible_outcomes refs claim ancestors validations)

abbrev pub counts_at : List ℕ → ℕ → ℕ → List ℕ → Bool
counts_at recorders created_at tip_created ancestors =
    if no_ids recorders then leb created_at tip_created else any_in recorders ancestors

abbrev pub links_at : List Ref → ℕ → ℕ → List ℕ → List EvidenceLink → List Link
links_at refs claim tip_created ancestors [] = []
links_at refs claim tip_created ancestors (row ∷ rows) =
    let rest = links_at refs claim tip_created ancestors rows in
    let recorders = referencing (codes "evidence") row.evidence_id refs in
    if row.claim_id == claim && counts_at recorders row.created_at tip_created ancestors
    then row.link ∷ rest
    else rest

-- `_grounding_at`
unfoldable pub grounding_at : List Ref → List EvidenceLink → ℕ → ℕ → List ℕ → ClaimGrounding
grounding_at refs links claim tip_created ancestors =
    compute_grounding (links_at refs claim tip_created ancestors links)

pub data ClaimChange : Type 0 where
  added removed status_changed : ClaimChange

pub record ClaimDelta : Type 0 where
  pub claim_id : ℕ
  pub statement : Text
  pub change : ClaimChange
  pub from_signal : Option ClaimSignal
  pub to_signal : Option ClaimSignal

unfoldable pub classify_claim_delta :
    Claim → Bool → Bool → ClaimSignal → ClaimSignal → Option ClaimDelta
classify_claim_delta claim present_from present_to from_signal to_signal =
    if present_to && not present_from
    then some (record {
      claim_id = claim.id;
      statement = claim.statement;
      change = added;
      from_signal = none;
      to_signal = some to_signal;
    })
    else if present_from && not present_to
    then some (record {
      claim_id = claim.id;
      statement = claim.statement;
      change = removed;
      from_signal = some from_signal;
      to_signal = none;
    })
    else if present_from && (present_to && not (signal_eq from_signal to_signal))
    then some (record {
      claim_id = claim.id;
      statement = claim.statement;
      change = status_changed;
      from_signal = some from_signal;
      to_signal = some to_signal;
    })
    else none
