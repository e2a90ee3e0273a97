-- ===== src/Meter/Holds.antt =====
-- Remaining-room holds and the releases that close them: `unmatched_holds`, which the session owner
-- and the roster caps use, and `pair_holds`, which the dashboard uses.
pub mod Matching
pub mod Closing
use opentheory.Base.{
  ℕ, ◌+◌, ◌-◌, ◌<◌, Bool, false, not, ◌&&◌, ◌||◌, Option, none, some, List, [], ◌∷◌, ◌++◌, ltb,
  ◌==◌, if◌then◌else◌, is_none, elem,
}
use opentheory.Base.Int.{ℤ, pos, ◌+ℤ◌, ◌-ℤ◌, neg, leb_ℤ}
use opentheory.Base.Text.{text_le, Text, contains}
use opentheory.Meter.Notes.{Uuids, hold_notes_mark, release_notes_mark, or_empty, parse_hold_id}

-- The columns of a `ComputeDebit` row that the meter reads; `amount` is in millionths of a dollar.
pub record Row : Type 0 where
  pub tokens_used : ℤ
  pub amount : ℤ
  pub notes : Option Text
  pub actor_id : Option ℕ
  pub created_at : ℕ

-- What one row is to the two loops, by its notes: the marks are tested in the loops' order.
pub data View : Type 0 where
  release_of : ℕ → View
  hold_of : ℕ → View
  release_legacy hold_legacy other : View

abbrev pub with_id : Option ℕ → (ℕ → View) → View → View
with_id none f d = d
with_id (some id) f d = f id

unfoldable pub view : Uuids → Row → View
view u row =
    if contains release_notes_mark (or_empty row.notes)
    then with_id (parse_hold_id u row.notes) release_of release_legacy
    else if contains hold_notes_mark (or_empty row.notes)
    then with_id (parse_hold_id u row.notes) hold_of hold_legacy
    else other

-- The variables of the first loop of `unmatched_holds`.
pub record Scan : Type 0 where
  pub released_ids : List ℕ
  pub legacy_release_tokens : ℤ
  pub identified : List Row
  pub legacy : List Row

abbrev pub scan_row : View → Row → Scan → Scan
scan_row (release_of id) row s = record s { released_ids = id ∷ s.released_ids }
scan_row release_legacy row s = record s {
  legacy_release_tokens = s.legacy_release_tokens +ℤ row.tokens_used;
}
scan_row (hold_of id) row s = record s { identified = s.identified ++ (row ∷ []) }
scan_row hold_legacy row s = record s { legacy = s.legacy ++ (row ∷ []) }
scan_row other row s = s

abbrev pub empty_scan : Scan
empty_scan = record {
  released_ids = [];
  legacy_release_tokens = pos 0;
  identified = [];
  legacy = [];
}

-- Whether `parse_hold_id(row.notes) in released_ids`.
abbrev pub view_in : View → List ℕ → Bool
view_in (hold_of id) ids = elem id ids
view_in (release_of id) ids = elem id ids
view_in _ ids = false

module _ (u : Uuids) where
  unfoldable pub scan : Scan → List Row → Scan
  scan s [] = s
  scan s (row ∷ rows) = scan (scan_row (view u row) row s) rows

  -- `[row for row in identified if parse_hold_id(row.notes) not in released_ids]`
  unfoldable pub still_open : List ℕ → List Row → List Row
  still_open ids [] = []
  still_open ids (row ∷ rows) =
      let rest = still_open ids rows in if view_in (view u row) ids then rest else row ∷ rest

  -- Leftover holds without an id, first in first out against the tokens released.
  unfoldable pub match_legacy : ℤ → List Row → List Row
  match_legacy remaining [] = []
  match_legacy remaining (row ∷ rows) =
      let covered = leb_ℤ row.tokens_used remaining in
      let rest = match_legacy (if covered then remaining -ℤ row.tokens_used else remaining) rows in
      if covered then rest else row ∷ rest

  unfoldable pub unmatched_holds : List Row → List Row
  unfolding scan still_open match_legacy
  unmatched_holds rows =
      let s = scan empty_scan rows in
      still_open s.released_ids s.identified ++ match_legacy (neg s.legacy_release_tokens) s.legacy

pub data HoldStatus : Type 0 where
  open_hold released : HoldStatus

pub record PairedHold : Type 0 where
  pub hold_id : Option ℕ
  pub status : HoldStatus
  pub tokens : ℤ
  pub created_at : ℕ
  pub released_at : Option ℕ
  pub notes : Option Text

-- The variables of the first loop of `pair_holds`.
pub record Releases : Type 0 where
  pub releases_by_id : List (ℕ × Row)
  pub legacy_releases : List Row
  pub holds : List Row

abbrev pub lookup : ℕ → List (ℕ × Row) → Option Row
lookup id [] = none
lookup id ((j, row) ∷ m) = if j == id then some row else lookup id m

abbrev pub collect_row : View → Row → Releases → Releases
collect_row (release_of id) row s =
    if is_none (lookup id s.releases_by_id)
    then record s { releases_by_id = (id, row) ∷ s.releases_by_id }
    else s
collect_row release_legacy row s = record s { legacy_releases = s.legacy_releases ++ (row ∷ []) }
collect_row (hold_of id) row s = record s { holds = s.holds ++ (row ∷ []) }
collect_row hold_legacy row s = record s { holds = s.holds ++ (row ∷ []) }
collect_row other row s = s

abbrev pub status_of : Option Row → HoldStatus
status_of none = open_hold
status_of (some _) = released

abbrev pub created_of : Option Row → Option ℕ
created_of none = none
created_of (some row) = some row.created_at

abbrev pub paired : Option ℕ → Row → Option Row → PairedHold
paired hold_id hold release = record {
  hold_id = hold_id;
  status = status_of release;
  tokens = hold.tokens_used;
  created_at = hold.created_at;
  released_at = created_of release;
  notes = hold.notes;
}

module _ (u : Uuids) where
  unfoldable pub collect : Releases → List Row → Releases
  collect s [] = s
  collect s (row ∷ rows) = collect (collect_row (view u row) row s) rows

  abbrev pub pair_one : View → Row → List (ℕ × Row) → List Row → PairedHold × List Row
  pair_one (hold_of id) hold by_id legacy = (paired (some id) hold (lookup id by_id), legacy)
  pair_one _ hold by_id [] = (paired none hold none, [])
  pair_one _ hold by_id (release ∷ legacy) = (paired none hold (some release), legacy)

  -- The second loop; the legacy releases not used yet stand for `legacy_index`.
  unfoldable pub pair_all : List (ℕ × Row) → List Row → List Row → List PairedHold
  pair_all by_id legacy [] = []
  pair_all by_id legacy (hold ∷ holds) =
      let (pair, left) = pair_one (view u hold) hold by_id legacy in
      pair ∷ pair_all by_id left holds

  abbrev pub id_text : Option ℕ → Text
  id_text none = []
  id_text (some id) = u.str id

  -- `(a.created_at, str(a.hold_id or "")) <= (b.created_at, str(b.hold_id or ""))`
  abbrev pub key_le : PairedHold → PairedHold → Bool
  key_le a b =
      ltb a.created_at b.created_at
      || (a.created_at == b.created_at && text_le (id_text a.hold_id) (id_text b.hold_id))

  unfoldable pub insert : PairedHold → List PairedHold → List PairedHold
  insert p [] = p ∷ []
  insert p (q ∷ qs) = let rest = insert p qs in if key_le p q then p ∷ q ∷ qs else q ∷ rest

  -- `paired.sort(key=...)`, which is stable.
  unfoldable pub sort : List PairedHold → List PairedHold
  unfolding insert
  sort [] = []
  sort (p ∷ ps) = insert p (sort ps)

  unfoldable pub pair_holds : List Row → List PairedHold
  unfolding collect pair_all sort
  pair_holds rows =
      let s = collect (record { releases_by_id = []; legacy_releases = []; holds = [] }) rows in
      sort (pair_all s.releases_by_id s.legacy_releases s.holds)
