-- ===== src/Meter/Notes/RoundTrip.antt =====
-- What `spend_notes` writes, the four parsers of harness_meter.py read back.
use opentheory.Base.{
  ℕ, suc, ◌≡◌, refl, ap, ◌∙◌, inl, inr, Bool, true, false, not, ◌||◌, Option, none, some, List, [],
  ◌∷◌, ◌++◌, map, arith, ◌==◌, if◌then◌else◌, Bool-cases, length, All, All-append,
}
use opentheory.Base.Int.{ℤ, pos, negsuc, ltb_ℤ}
use opentheory.Base.Text.{
  Text, codes, is_digit, strip, starts_with, contains, drop, split, show_int, show_nat, text_eq,
}
use opentheory.Base.Text.Decimal.{IsDigits, show_nat-IsDigits, parse_show_int}
use opentheory.Base.Text.Parts.{IsToken, map-strip-split, contains-append, tail, join-tail}
use mathlib.Core.Path.{ap₂}
use opentheory.Meter.Notes.{
  session_notes, clamp_mark, pot_room_mark, pot_room_none, overshoot_mark, price_unknown_mark,
  first_marked, pot_text, overshoot_part, price_part, spend_notes, int_of, pot_of, overshoot_of,
  price_of, parse_int_mark, parse_clamp, parse_overshoot, parse_price_known, parse_pot_room,
}

-- The search over parts that are stripped already.
abbrev pub first_token : Text → List Text → Option Text
first_token mark [] = none
first_token mark (t ∷ ts) =
    let later = first_token mark ts in
    if starts_with mark t then some (drop (length mark) t) else later

pub first_marked-strip :
    (mark : Text) (ps : List Text) → first_marked mark ps ≡ first_token mark (map strip ps)
unfolding first_marked
first_marked-strip mark [] = refl
first_marked-strip mark (p ∷ ps) = rw (first_marked-strip mark ps)

-- A decimal digit or the minus sign.
abbrev is_signed : ℕ → Bool
is_signed c = is_digit c || c == b'-'

abbrev IsSigned : Text → Type 0
IsSigned s = All (λ c. is_signed c ≡ true) s

digits-IsSigned : (s : Text) → IsDigits s → IsSigned s
digits-IsSigned [] h = tt
digits-IsSigned (c ∷ s) h = (rw h.0, digits-IsSigned s h.1)

show_int-IsSigned : (z : ℤ) → IsSigned (show_int z)
unfolding show_int
show_int-IsSigned (pos n) = digits-IsSigned (show_nat n) (show_nat-IsDigits n)
show_int-IsSigned (negsuc n) =
    (refl, digits-IsSigned (show_nat (suc n)) (show_nat-IsDigits (suc n)))

signed-IsToken : (s : Text) → IsSigned s → IsToken s
signed-IsToken [] h = tt
signed-IsToken (c ∷ s) h = (ground (arith, h.0), signed-IsToken s h.1)

signed_no_p : (s : Text) → IsSigned s → All (λ c. (c == b'p') ≡ false) s
signed_no_p [] h = tt
signed_no_p (c ∷ s) h = (ground (arith, h.0), signed_no_p s h.1)

show_int-IsToken : (z : ℤ) → IsToken (show_int z)
show_int-IsToken z = signed-IsToken (show_int z) (show_int-IsSigned z)

pot-IsToken : (room : Option ℤ) → IsToken (pot_room_mark ++ pot_text room)
pot-IsToken none = ground arith
pot-IsToken (some n) = All-append _ pot_room_mark (show_int n) (ground arith) (show_int-IsToken n)

overshoot-IsToken : (over : ℤ) → All IsToken (overshoot_part over)
overshoot-IsToken over = elim (Bool-cases (ltb_ℤ (pos 0) over)) [
  | inl more ↦
      rw more
        (All-append _ overshoot_mark (show_int over) (ground arith) (show_int-IsToken over), tt)
  | inr fits ↦ rw fits tt
]

price-IsToken : (known : Bool) → All IsToken (price_part known)
price-IsToken true = tt
price-IsToken false = (ground arith, tt)

extra_tokens : (over : ℤ) (known : Bool) → All IsToken (overshoot_part over ++ price_part known)
extra_tokens over known =
    All-append IsToken (overshoot_part over) (price_part known) (overshoot-IsToken over)
      (price-IsToken known)

-- The tokens of the notes that `spend_notes` writes.
spend_tokens : ℤ → ℤ → Bool → Option ℤ → List Text
spend_tokens clamp over known room =
    session_notes
    ∷ (clamp_mark ++ show_int clamp)
    ∷ (pot_room_mark ++ pot_text room)
    ∷ (overshoot_part over ++ price_part known)

first_marked-spend :
    (mark : Text) (clamp over : ℤ) (known : Bool) (room : Option ℤ)
    → first_marked mark (split b';' (spend_notes clamp over known room session_notes))
      ≡ first_token mark (spend_tokens clamp over known room)
unfolding spend_notes spend_tokens
first_marked-spend mark clamp over known room =
    first_marked-strip mark _
    ∙ ap (first_token mark) (
        map-strip-split session_notes _ (ground arith) (
          All-append _ clamp_mark (show_int clamp) (ground arith) (show_int-IsToken clamp),
          (pot-IsToken room, extra_tokens over known),
        ))

parse_clamp-spend_notes :
    (clamp over : ℤ) (known : Bool) (room : Option ℤ)
    → parse_clamp (some (spend_notes clamp over known room session_notes)) ≡ some clamp
unfolding parse_clamp spend_tokens
parse_clamp-spend_notes clamp over known room =
    ap int_of (first_marked-spend clamp_mark clamp over known room) ∙ parse_show_int clamp

-- No printed number spells "none".
signed_not_none : (s : Text) → IsSigned s → text_eq s pot_room_none ≡ false
signed_not_none [] h = refl
signed_not_none (c ∷ s) h = ground (arith, h.0)

show_int_not_none : (n : ℤ) → text_eq (show_int n) pot_room_none ≡ false
show_int_not_none n = signed_not_none (show_int n) (show_int-IsSigned n)

parse_pot_room-spend_notes :
    (clamp over : ℤ) (known : Bool) (room : Option ℤ)
    → parse_pot_room (some (spend_notes clamp over known room session_notes)) ≡ room
unfolding parse_pot_room spend_tokens
parse_pot_room-spend_notes clamp over known none =
    ap pot_of (first_marked-spend pot_room_mark clamp over known none)
parse_pot_room-spend_notes clamp over known (some n) =
    ap pot_of (first_marked-spend pot_room_mark clamp over known (some n))
    ∙ rw (show_int_not_none n) (parse_show_int n)

-- What the overshoot mark reads back as: `None` where none was written.
abbrev overshoot_flag : ℤ → Option ℤ
overshoot_flag over = if ltb_ℤ (pos 0) over then some over else none

overshoot_flag_lem :
    (over : ℤ) (known : Bool)
    → int_of (first_token overshoot_mark (overshoot_part over ++ price_part known))
      ≡ overshoot_flag over
overshoot_flag_lem over known = elim (Bool-cases (ltb_ℤ (pos 0) over)) [
  | inl more ↦ rw more (parse_show_int over)
  | inr fits ↦ rw fits (no_flag known)
]
  where
    no_flag : (k : Bool) → int_of (first_token overshoot_mark (price_part k)) ≡ none
    no_flag true = refl
    no_flag false = refl

overshoot_flag-spend_notes :
    (clamp over : ℤ) (known : Bool) (room : Option ℤ)
    → parse_int_mark (some (spend_notes clamp over known room session_notes)) overshoot_mark
      ≡ overshoot_flag over
unfolding parse_int_mark spend_tokens
overshoot_flag-spend_notes clamp over known room =
    ap int_of (first_marked-spend overshoot_mark clamp over known room)
    ∙ overshoot_flag_lem over known

skip_text :
    (s t : Text)
    → All (λ c. (c == b'p') ≡ false) s
    → contains price_unknown_mark (s ++ t) ≡ contains price_unknown_mark t
skip_text s t h = contains-append b'p' (codes "rice_unknown") s t h

contains_extra :
    (over : ℤ) (known : Bool)
    → contains price_unknown_mark (tail (overshoot_part over ++ price_part known)) ≡ not known
unfolding contains
contains_extra over known = elim (Bool-cases (ltb_ℤ (pos 0) over)) [
  | inl more ↦ rw more (
      skip_text (show_int over) (tail (price_part known))
        (signed_no_p (show_int over) (show_int-IsSigned over))
      ∙ in_price known)
  | inr fits ↦ rw fits (in_price known)
]
  where
    in_price : (k : Bool) → contains price_unknown_mark (tail (price_part k)) ≡ not k
    in_price true = refl
    in_price false = refl

pot_text_no_p : (room : Option ℤ) → All (λ c. (c == b'p') ≡ false) (pot_text room)
pot_text_no_p none = ground arith
pot_text_no_p (some n) = signed_no_p (show_int n) (show_int-IsSigned n)

contains_unknown :
    (clamp over : ℤ) (known : Bool) (room : Option ℤ)
    → contains price_unknown_mark (spend_notes clamp over known room session_notes) ≡ not known
unfolding spend_notes contains
contains_unknown clamp over known room =
    ap (contains price_unknown_mark) (join-tail session_notes _)
    ∙ (skip_text (show_int clamp) _ (signed_no_p (show_int clamp) (show_int-IsSigned clamp))
        ∙ (skip_text (pot_text room) _ (pot_text_no_p room) ∙ contains_extra over known))

-- `max(0, overshoot)`
abbrev pub clipped : ℤ → ℤ
clipped over = if ltb_ℤ (pos 0) over then over else pos 0

overshoot_lem :
    (over clamp : ℤ) → overshoot_of (overshoot_flag over) (some clamp) ≡ some (clipped over)
overshoot_lem over clamp = elim (Bool-cases (ltb_ℤ (pos 0) over)) [
  | inl more ↦ rw more
  | inr fits ↦ rw fits
]

price_lem : (known : Bool) (clamp : ℤ) → price_of (not known) (some clamp) ≡ some known
price_lem true clamp = refl
price_lem false clamp = refl

-- The notes of a spend row read back exactly: the clamp, the pot room (`None` where it was not
-- applied), whether the price was known, and the overshoot, 0 where it was not positive.
pub spend_notes_round_trip :
    (clamp over : ℤ) (known : Bool) (room : Option ℤ)
    → let notes = some (spend_notes clamp over known room session_notes) in
      (parse_clamp notes ≡ some clamp)
      × (parse_pot_room notes ≡ room)
      × (parse_price_known notes ≡ some known)
      × (parse_overshoot notes ≡ some (clipped over))
unfolding parse_price_known parse_overshoot
spend_notes_round_trip clamp over known room =
    let clamp_back = parse_clamp-spend_notes clamp over known room in
    (
      clamp_back,
      parse_pot_room-spend_notes clamp over known room,
      ap₂ price_of (contains_unknown clamp over known room) clamp_back ∙ price_lem known clamp,
      ap₂ overshoot_of (overshoot_flag-spend_notes clamp over known room) clamp_back
          ∙ overshoot_lem over clamp,
    )
