-- ===== src/Meter/Room/Bounds.antt =====
-- What the clamps of harness_meter.py guarantee about a turn.
use opentheory.Base.{
  ℕ, zero, suc, ◌+◌, ◌*◌, ◌/◌, ◌≤◌, ◌<◌, ◌≡◌, ◌≢◌, ◌⊎◌, true, false, Option, none, some, arith,
}
use opentheory.Base.Int.{ℤ, pos, ◌≤ℤ◌, ◌-ℤ◌, ◌+ℤ◌, max_ℤ}
use native.Mathlib.Nat.{le_trans}
use opentheory.Meter.Room.{
  hold_ttl_covers_turn, is_hold_stale, pot_tokens_from_available, turn_clamp, clamp_max_tokens,
  overshoot_tokens,
}

-- A bound that is not set bounds nothing.
abbrev pub Within : ℤ → Option ℤ → Type 0
Within r none = Unit
Within r (some bound) = r ≤ℤ max_ℤ (pos 0) bound

-- The clamp is one of the bounds that are set, each taken as at least 0.
abbrev pub Attained : ℤ → Option ℤ → Type 0
Attained r none = ⊥
Attained r (some bound) = r ≡ max_ℤ (pos 0) bound

-- The clamp of a turn is the least of the daily room and of the pot and agent rooms that are set,
-- with negative rooms read as 0: it lies within each of them and is one of them.
pub turn_clamp-least :
    (daily : ℤ) (pot agent : Option ℤ)
    → let r = turn_clamp daily pot agent in
      (pos 0 ≤ℤ r)
      × Within r (some daily)
      × Within r pot
      × Within r agent
      × (Attained r (some daily) ⊎ (Attained r pot ⊎ Attained r agent))
unfolding turn_clamp
turn_clamp-least daily none none = ground arith
turn_clamp-least daily none (some a) = ground arith
turn_clamp-least daily (some p) none = ground arith
turn_clamp-least daily (some p) (some a) = ground arith

-- `max_tokens` is 0 without room, and otherwise between 1 and the room, and never above a
-- positive request.
pub clamp_max_tokens_bounds :
    (requested : Option ℤ) (room : ℤ)
    → let m = clamp_max_tokens requested room in
      (¬ (pos 1 ≤ℤ room) → m ≡ pos 0)
      × (pos 1 ≤ℤ room → (pos 1 ≤ℤ m) × (m ≤ℤ room))
      × ((n : ℤ) → requested ≡ some n → pos 1 ≤ℤ n → m ≤ℤ n)
unfolding clamp_max_tokens
clamp_max_tokens_bounds none room = (ground arith, ground arith, λ n e h. cc)
clamp_max_tokens_bounds (some n) room = (ground arith, ground arith, λ m e h. ground arith)

pub floor_lem : (a r : ℕ) → 0 < r → (a / r * r ≤ a) × (a < (a / r + 1) * r)
floor_lem a r h = grind arith

pub pot_tokens_lem :
    (left rate : ℕ)
    → 0 < rate
    → pot_tokens_from_available (pos left) (pos rate) ≡ some (pos (left * 1000 / rate))
unfolding pot_tokens_from_available
pot_tokens_lem zero rate h = ground arith
pot_tokens_lem (suc left) rate h = ground arith

-- What a pot buys at a positive rate is a floor: it can be paid for, and one token more cannot.
pub pot_tokens_floor :
    (left rate : ℕ)
    → 0 < rate
    → (n : ℕ) × (pot_tokens_from_available (pos left) (pos rate) ≡ some (pos n))
      × (n * rate ≤ left * 1000)
      × (left * 1000 < (n + 1) * rate)
pot_tokens_floor left rate h =
    let bounds = floor_lem (left * 1000) rate h in
    (left * 1000 / rate, pot_tokens_lem left rate h, bounds.0, bounds.1)

clamp_within_pot :
    (requested : Option ℤ) (daily : ℤ) (agent : Option ℤ) (n used : ℕ)
    → pos used ≤ℤ clamp_max_tokens requested (turn_clamp daily (some (pos n)) agent)
    → used ≤ n
unfolding clamp_max_tokens turn_clamp
clamp_within_pot none daily none n used fits = ground arith
clamp_within_pot none daily (some a) n used fits = ground arith
clamp_within_pot (some r) daily none n used fits = ground arith
clamp_within_pot (some r) daily (some a) n used fits = ground arith

pub mul_mono : (r a b : ℕ) → a ≤ b → a * r ≤ b * r
mul_mono r a b h = grind arith

-- Tokens within the `max_tokens` of a turn can be paid from the pot at the rate that the clamp was
-- taken at, whatever the daily and agent rooms and the request are.
pub clamped_turn_affordable :
    (requested : Option ℤ) (daily : ℤ) (agent : Option ℤ) (left rate used : ℕ)
    → 0 < rate
    → pos used
      ≤ℤ clamp_max_tokens requested
          (turn_clamp daily (pot_tokens_from_available (pos left) (pos rate)) agent)
    → used * rate ≤ left * 1000
clamped_turn_affordable requested daily agent left rate used h fits =
    let bought = pot_tokens_lem left rate h in
    let few =
      clamp_within_pot requested daily agent (left * 1000 / rate) used (rw bought at fits) in
    le_trans (mul_mono rate used (left * 1000 / rate) few) (floor_lem (left * 1000) rate h).0

-- A hold whose TTL covers the turn is not stale while the turn can still run.
live_hold_not_stale :
    (ttl timeout margin created now : ℕ)
    → hold_ttl_covers_turn (pos ttl) (pos timeout) (pos margin) ≡ true
    → now ≤ created + timeout + margin
    → is_hold_stale created (pos ttl) now ≡ false
unfolding hold_ttl_covers_turn is_hold_stale ◌+ℤ◌ ◌-ℤ◌
live_hold_not_stale ttl timeout margin created now covers during = ground arith

-- Usage is the clamp plus the overshoot when it passes the clamp, and within it otherwise.
pub overshoot_tokens_lem :
    (used clamp : ℤ)
    → (pos 0 ≤ℤ overshoot_tokens used clamp)
      × (used ≤ℤ clamp +ℤ overshoot_tokens used clamp)
      × (overshoot_tokens used clamp ≢ pos 0 → used ≡ clamp +ℤ overshoot_tokens used clamp)
unfolding overshoot_tokens ◌+ℤ◌ ◌-ℤ◌
overshoot_tokens_lem used clamp = (ground arith, ground arith, ground arith)
