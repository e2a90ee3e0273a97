-- ===== src/Evidence/Grounding.antt =====
-- backend/app/services/grounding.py: what the links of a claim add up to, and what a pass moved.
use opentheory.Base.{
  ℕ, Bool, true, false, not, ◌&&◌, ◌||◌, Option, none, some, List, [], ◌∷◌, ◌++◌, ◌==◌,
  if◌then◌else◌,
}
use opentheory.Base.Text.{Text, codes, text_eq}
use opentheory.Evidence.Grading.{
  EvidenceGrade, A, B, C, D, ResultStatus, result, undecided, grade_for, strongest,
}

-- A value of the metadata dictionary: a `str`, or anything else.
pub data Json : Type 0 where
  string : Text → Json
  other : Json

-- `Evidence.evidence_metadata` under the two keys that are read; `none` is a missing key.
pub record Metadata : Type 0 where
  pub instrument : Option Json
  pub status : Option Json

abbrev pub no_metadata : Metadata
no_metadata = record { instrument = none; status = none }

-- `metadata or {}`
abbrev pub or_empty : Option Metadata → Metadata
or_empty none = no_metadata
or_empty (some metadata) = metadata

-- The instrument, if it is a `str` and not the empty one.
abbrev pub instrument_of : Option Json → Option Text
instrument_of (some (string (c ∷ s))) = some (c ∷ s)
instrument_of _ = none

-- `ResultStatus(value)`, which raises on anything but the three values.
abbrev pub parse_status : Option Json → Option ResultStatus
parse_status (some (string s)) =
    if text_eq s (codes "result")
    then some result
    else if text_eq s (codes "refuted")
    then some ResultStatus.refuted
    else if text_eq s (codes "undecided")
    then some undecided
    else none
parse_status _ = none

abbrev pub is_tool : Text → Bool
is_tool source_type = text_eq source_type (codes "tool")

abbrev pub grade_of_status : Text → Option ResultStatus → Option EvidenceGrade
grade_of_status instrument none = none
grade_of_status instrument (some status) = grade_for instrument status

abbrev pub grade_of_run : Text → Option Json → Option Text → Option EvidenceGrade
grade_of_run source_type status none = some D
grade_of_run source_type status (some instrument) =
    if is_tool source_type then grade_of_status instrument (parse_status status) else none

-- `_grade_of_link`
unfoldable pub grade_of_link : Text → Option Metadata → Option EvidenceGrade
grade_of_link source_type metadata =
    let meta = or_empty metadata in
    grade_of_run source_type meta.status (instrument_of meta.instrument)

abbrev pub is_undecided : Option Json → Bool
is_undecided (some (string s)) = text_eq s (codes "undecided")
is_undecided _ = false

abbrev pub is_decided_pin : Text → Option Json → Option Text → Bool
is_decided_pin source_type status none = false
is_decided_pin source_type status (some instrument) =
    not (is_tool source_type) && not (is_undecided status)

-- `_is_live_pin`
unfoldable pub is_live_pin : Text → Option Metadata → Bool
is_live_pin source_type metadata =
    let meta = or_empty metadata in
    is_decided_pin source_type meta.status (instrument_of meta.instrument)

pub data GroundingHeadline : Type 0 where
  proven refuted grade_b grade_c grade_d cited ungrounded : GroundingHeadline

abbrev pub position : GroundingHeadline → ℕ
position proven = 0
position refuted = 1
position grade_b = 2
position grade_c = 3
position grade_d = 4
position cited = 5
position ungrounded = 6

abbrev pub headline_eq : GroundingHeadline → GroundingHeadline → Bool
headline_eq a b = position a == position b

-- Whether the counter is one of `_DOMINATING_COUNTERS`.
abbrev pub is_dominating : Option EvidenceGrade → Bool
is_dominating (some A) = true
is_dominating (some B) = true
is_dominating _ = false

abbrev pub support_headline : Option EvidenceGrade → Bool → GroundingHeadline
support_headline (some A) pinned = proven
support_headline (some B) pinned = grade_b
support_headline (some C) pinned = grade_c
support_headline (some D) pinned = grade_d
support_headline none pinned = if pinned then cited else ungrounded

-- `_headline`
unfoldable pub headline : Option EvidenceGrade → Option EvidenceGrade → Bool → GroundingHeadline
headline support counter pinned =
    if is_dominating counter then refuted else support_headline support pinned

pub record Link : Type 0 where
  pub relation_kind : Text
  pub source_type : Text
  pub metadata : Option Metadata

pub record ClaimGrounding : Type 0 where
  pub support : Option EvidenceGrade
  pub counter : Option EvidenceGrade
  pub cited : Bool
  pub headline : GroundingHeadline

-- The two lists and the flag that the loop of `compute_grounding` fills.
pub record Tally : Type 0 where
  pub support_grades : List EvidenceGrade
  pub counter_grades : List EvidenceGrade
  pub pinned : Bool

abbrev pub count_grade : Text → Option EvidenceGrade → Tally → Tally
count_grade kind none tally = tally
count_grade kind (some grade) tally =
    if text_eq kind (codes "support")
    then record tally { support_grades = tally.support_grades ++ (grade ∷ []) }
    else if text_eq kind (codes "weaken")
    then record tally { counter_grades = tally.counter_grades ++ (grade ∷ []) }
    else tally

abbrev pub count_link : Link → Tally → Tally
count_link link tally =
    count_grade link.relation_kind (grade_of_link link.source_type link.metadata)
      (record tally { pinned = is_live_pin link.source_type link.metadata || tally.pinned })

unfoldable pub tally_links : List Link → Tally → Tally
tally_links [] tally = tally
tally_links (link ∷ links) tally = tally_links links (count_link link tally)

abbrev pub no_tally : Tally
no_tally = record { support_grades = []; counter_grades = []; pinned = false }

unfoldable pub grounding_of : Tally → ClaimGrounding
grounding_of tally =
    let support = strongest tally.support_grades in
    let counter = strongest tally.counter_grades in
    record {
      support = support;
      counter = counter;
      cited = tally.pinned;
      headline = headline support counter tally.pinned;
    }

unfoldable pub compute_grounding : List Link → ClaimGrounding
compute_grounding links = grounding_of (tally_links links no_tally)
