-- ===== src/Meter/Notes.antt =====
-- The marks that harness_meter.py writes into `ComputeDebit.notes` and reads back.
pub mod RoundTrip
pub mod Kinds
use opentheory.Base.{
  ℕ, ◌+◌, ◌-◌, ◌≡◌, Bool, true, false, not, ◌&&◌, ◌||◌, Option, none, some, List, [], ◌∷◌, ◌++◌,
  leb, ◌==◌, if◌then◌else◌, length, All,
}
use opentheory.Base.Int.{ℤ, pos, ltb_ℤ}
use opentheory.Base.Text.{
  Text, codes, strip, starts_with, contains, drop, split, join, show_int, parse_int, text_eq,
  is_digit,
}

abbrev pub is_plain : ℕ → Bool
is_plain c = is_digit c || (c == b'-' || (leb b'a' c) && (leb c b'f'))

-- `uuid.UUID` of Python: `str(u)` is made of hexadecimal digits and hyphens, and `UUID(str(u))` is
-- `u`; `none` stands for the `ValueError` of a text that is no UUID.
pub record Uuids : Type 0 where
  pub str : ℕ → Text
  pub parse : Text → Option ℕ
  pub parse-str : (u : ℕ) → parse (str u) ≡ some u
  pub str_plain : (u : ℕ) → All (λ c. is_plain c ≡ true) (str u)

abbrev pub session_notes : Text
session_notes = codes "harness_session_turn"

abbrev pub hold_notes_mark : Text
hold_notes_mark = codes "daily_cap_hold"

abbrev pub release_notes_mark : Text
release_notes_mark = codes "daily_cap_release"

abbrev pub hold_id_mark : Text
hold_id_mark = codes "hold_id="

abbrev pub clamp_mark : Text
clamp_mark = codes "clamp="

abbrev pub overshoot_mark : Text
overshoot_mark = codes "overshoot="

abbrev pub pot_room_mark : Text
pot_room_mark = codes "pot_room="

abbrev pub pot_room_none : Text
pot_room_none = codes "none"

abbrev pub price_unknown_mark : Text
price_unknown_mark = codes "price_unknown"

-- `notes or ""`
abbrev pub or_empty : Option Text → Text
or_empty none = []
or_empty (some s) = s

unfoldable pub is_daily_cap_adjustment : Option Text → Bool
is_daily_cap_adjustment notes =
    contains hold_notes_mark (or_empty notes) || contains release_notes_mark (or_empty notes)

-- What follows the mark in the first part that begins with it.
unfoldable pub first_marked : Text → List Text → Option Text
first_marked mark [] = none
first_marked mark (part ∷ rest) =
    let later = first_marked mark rest in
    if starts_with mark (strip part) then some (drop (length mark) (strip part)) else later

module _ (u : Uuids) where
  unfoldable pub hold_notes : ℕ → Text
  hold_notes id =
      join (codes "; ") (session_notes ∷ hold_notes_mark ∷ (hold_id_mark ++ u.str id) ∷ [])

  unfoldable pub release_notes : Option ℕ → Text
  release_notes none = join (codes "; ") (session_notes ∷ release_notes_mark ∷ [])
  release_notes (some id) =
      join (codes "; ") (session_notes ∷ release_notes_mark ∷ (hold_id_mark ++ u.str id) ∷ [])

  abbrev pub uuid_of : Option Text → Option ℕ
  uuid_of none = none
  uuid_of (some raw) = u.parse raw

  unfoldable pub parse_hold_id : Option Text → Option ℕ
  parse_hold_id notes = uuid_of (first_marked hold_id_mark (split b';' (or_empty notes)))

pub data HarnessRowKind : Type 0 where
  spend hold release : HarnessRowKind

unfoldable pub classify_harness_row : Option Text → HarnessRowKind
classify_harness_row notes =
    if contains hold_notes_mark (or_empty notes)
    then hold
    else if contains release_notes_mark (or_empty notes)
    then release
    else spend

abbrev pub pot_text : Option ℤ → Text
pot_text none = pot_room_none
pot_text (some n) = show_int n

-- `if overshoot > 0: parts.append(...)`
abbrev pub overshoot_part : ℤ → List Text
overshoot_part n = if ltb_ℤ (pos 0) n then (overshoot_mark ++ show_int n) ∷ [] else []

-- `if not price_known: parts.append(...)`
abbrev pub price_part : Bool → List Text
price_part true = []
price_part false = price_unknown_mark ∷ []

unfoldable pub spend_notes : ℤ → ℤ → Bool → Option ℤ → Text → Text
spend_notes clamp overshoot price_known pot_room notes = join (codes "; ") (
    notes
    ∷ (clamp_mark ++ show_int clamp)
    ∷ (pot_room_mark ++ pot_text pot_room)
    ∷ (overshoot_part overshoot ++ price_part price_known))

-- `int(raw)`, and `None` where there is no mark or no number behind it.
abbrev pub int_of : Option Text → Option ℤ
int_of none = none
int_of (some raw) = parse_int raw

unfoldable pub parse_int_mark : Option Text → Text → Option ℤ
parse_int_mark notes mark = int_of (first_marked mark (split b';' (or_empty notes)))

unfoldable pub parse_clamp : Option Text → Option ℤ
unfolding parse_int_mark
parse_clamp notes = parse_int_mark notes clamp_mark

-- The flag when there is one, else 0 where a clamp is present.
abbrev pub overshoot_of : Option ℤ → Option ℤ → Option ℤ
overshoot_of (some flagged) clamp = some flagged
overshoot_of none none = none
overshoot_of none (some _) = some (pos 0)

unfoldable pub parse_overshoot : Option Text → Option ℤ
unfolding parse_int_mark
parse_overshoot notes = overshoot_of (parse_int_mark notes overshoot_mark) (parse_clamp notes)

abbrev pub price_of : Bool → Option ℤ → Option Bool
price_of true clamp = some false
price_of false none = none
price_of false (some _) = some true

unfoldable pub parse_price_known : Option Text → Option Bool
parse_price_known notes =
    price_of (contains price_unknown_mark (or_empty notes)) (parse_clamp notes)

abbrev pub pot_of : Option Text → Option ℤ
pot_of none = none
pot_of (some raw) = if text_eq raw pot_room_none then none else parse_int raw

unfoldable pub parse_pot_room : Option Text → Option ℤ
parse_pot_room notes = pot_of (first_marked pot_room_mark (split b';' (or_empty notes)))
