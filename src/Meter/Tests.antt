-- ===== src/Meter/Tests.antt =====
-- Runs of the meter on concrete rows, and its theorems at concrete inputs.
use opentheory.Base.{
  ℕ, zero, suc, ◌+◌, ◌*◌, ◌≤◌, ◌<◌, ◌≡◌, refl, ◌↔◌, ◌⊎◌, true, false, Option, none, some, [], ◌∷◌,
  ◌++◌, arith, All, In,
}
use opentheory.Base.Int.{pos, negsuc, ◌+ℤ◌, ◌-ℤ◌, neg, ◌≤ℤ◌}
use opentheory.Base.Text.{Text, contains, split, join, strip, strip_by, strip_left}
use opentheory.Meter.Notes.{
  Uuids, first_marked, is_plain, session_notes, hold, release, hold_notes, release_notes,
  parse_hold_id, classify_harness_row, is_daily_cap_adjustment, spend_notes, parse_clamp,
  parse_pot_room, parse_price_known, parse_overshoot,
}
use opentheory.Meter.Notes.RoundTrip.{clipped, spend_notes_round_trip}
use opentheory.Meter.Notes.Kinds.{adjustment_notes_round_trip}
use opentheory.Meter.Holds.{Row, view, unmatched_holds}
use opentheory.Meter.Holds.Matching.{pick, not_in, is_released}
use opentheory.Meter.Holds.Closing.{unmatched_holds-release, In-unmatched_holds_of_notes}
use opentheory.Meter.Room.{pot_tokens_from_available, turn_clamp}
use opentheory.Meter.Caps.{AgentCapRoom, load_agent_cap_room}
use opentheory.Compute.Pricing.{ModelRate}
use opentheory.Meter.Room.Bounds.{Within, Attained, turn_clamp-least, pot_tokens_floor}

-- A printed id for the runs: as many letters `a` as the id counts, and one more.
abbrev letters : ℕ → Text
letters zero = b'a' ∷ []
letters (suc n) = b'a' ∷ letters n

abbrev count_letters : Text → Option ℕ
count_letters [] = none
count_letters (c ∷ []) = some 0
count_letters (c ∷ d ∷ s) = elim (count_letters (d ∷ s)) [ none ↦ none | some n ↦ some (suc n) ]

count-letters : (n : ℕ) → count_letters (letters n) ≡ some n
count-letters zero = refl
count-letters (suc zero) = refl
count-letters (suc (suc n)) = rw (count-letters (suc n))

letters_plain : (n : ℕ) → All (λ c. is_plain c ≡ true) (letters n)
letters_plain zero = (refl, tt)
letters_plain (suc n) = (refl, letters_plain n)

abbrev sample_ids : Uuids
sample_ids = record {
  str = letters;
  parse = count_letters;
  parse-str = count-letters;
  str_plain = letters_plain;
}

abbrev held_row : Row
held_row = record {
  tokens_used = pos 20000;
  amount = pos 0;
  notes = some (hold_notes sample_ids 7);
  actor_id = some 1;
  created_at = 100;
}

abbrev freed_row : Row
freed_row = record {
  tokens_used = negsuc 19999;
  amount = pos 0;
  notes = some (release_notes sample_ids (some 7));
  actor_id = some 1;
  created_at = 200;
}

-- The hold is open until its release is written.
open_then_closed :
    (unmatched_holds sample_ids (held_row ∷ []) ≡ held_row ∷ [])
    × (unmatched_holds sample_ids (held_row ∷ freed_row ∷ []) ≡ [])
unfolding unmatched_holds view hold_notes release_notes parse_hold_id contains first_marked split
    join strip strip_by strip_left neg ◌-ℤ◌ ◌+ℤ◌
open_then_closed = (refl, refl)

spend_notes_round_trip_example :
    let notes = some (spend_notes (pos 16) (pos 3) false none session_notes) in
    (parse_clamp notes ≡ some (pos 16))
    × (parse_pot_room notes ≡ none)
    × (parse_price_known notes ≡ some false)
    × (parse_overshoot notes ≡ some (clipped (pos 3)))
spend_notes_round_trip_example = spend_notes_round_trip (pos 16) (pos 3) false none

adjustment_notes_round_trip_example :
    (parse_hold_id sample_ids (some (hold_notes sample_ids 7)) ≡ some 7)
    × (classify_harness_row (some (hold_notes sample_ids 7)) ≡ hold)
    × (is_daily_cap_adjustment (some (hold_notes sample_ids 7)) ≡ true)
    × (parse_hold_id sample_ids (some (release_notes sample_ids none)) ≡ none)
    × (classify_harness_row (some (release_notes sample_ids none)) ≡ release)
    × (is_daily_cap_adjustment (some (release_notes sample_ids none)) ≡ true)
adjustment_notes_round_trip_example = adjustment_notes_round_trip sample_ids 7 none

unmatched_holds-release_example :
    unmatched_holds sample_ids ((held_row ∷ []) ++ (freed_row ∷ []))
    ≡ pick sample_ids (not_in sample_ids (7 ∷ [])) (unmatched_holds sample_ids (held_row ∷ []))
unmatched_holds-release_example =
    unmatched_holds-release sample_ids (held_row ∷ []) freed_row 7 refl

In-unmatched_holds_of_notes_example :
    In held_row (unmatched_holds sample_ids (held_row ∷ []))
    ↔ (In held_row (held_row ∷ []) × (is_released sample_ids 7 (held_row ∷ []) ≡ false))
In-unmatched_holds_of_notes_example =
    In-unmatched_holds_of_notes sample_ids held_row 7 (held_row ∷ []) refl

turn_clamp-least_example :
    let r = turn_clamp (pos 20000) (some (pos 500)) (some (negsuc 3)) in
    (pos 0 ≤ℤ r)
    × Within r (some (pos 20000))
    × Within r (some (pos 500))
    × Within r (some (negsuc 3))
    × (Attained r (some (pos 20000)) ⊎ (Attained r (some (pos 500)) ⊎ Attained r (some (negsuc 3))))
turn_clamp-least_example = turn_clamp-least (pos 20000) (some (pos 500)) (some (negsuc 3))

pot_tokens_floor_example :
    (n : ℕ) × (pot_tokens_from_available (pos 1000000) (pos 15000) ≡ some (pos n))
    × (n * 15000 ≤ 1000000 * 1000)
    × (1000000 * 1000 < (n + 1) * 15000)
pot_tokens_floor_example = pot_tokens_floor 1000000 15000 (omega arith)

abbrev live_rate : ModelRate
live_rate = record { prompt_per_1k = 5000; completion_per_1k = 15000 }

abbrev spent_row : Row
spent_row = record {
  tokens_used = pos 30000;
  amount = pos 200000;
  notes = none;
  actor_id = some 1;
  created_at = 90;
}

abbrev seat_room : AgentCapRoom
seat_room =
    load_agent_cap_room sample_ids 1 (some 100000) (some 1000000) (spent_row ∷ []) (held_row ∷ [])
