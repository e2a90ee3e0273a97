-- ===== src/Meter/Caps/Fitting.antt =====
-- What the caps of a seat (agent_caps.py) guarantee about a turn that they clamp.
use opentheory.Base.{
  ℕ, ◌+◌, ◌-◌, ◌*◌, ◌/◌, ◌≤◌, ◌<◌, ◌≡◌, false, inl, inr, Option, none, some, arith, Bool-cases,
}
use opentheory.Base.Int.{ℤ, pos, ◌≤ℤ◌, max_ℤ}
use native.Mathlib.Nat.{le_trans}
use opentheory.Meter.Room.{turn_clamp, clamp_max_tokens}
use opentheory.Meter.Room.Bounds.{floor_lem, pot_tokens_lem, mul_mono}
use opentheory.Meter.Caps.{
  AgentCapRoom, reached, CapReached, refuse_reason, left_of, usd_tokens, tighter,
}

-- The total passes the cap by at most what is given beside it; a cap that is not set caps nothing.
abbrev pub UnderCap : Option ℕ → ℕ → ℕ → Type 0
UnderCap none beside total = Unit
UnderCap (some cap) beside total = total ≤ cap + beside

-- A turn that is not refused finds room under both caps.
pub not_refused :
    (room : AgentCapRoom)
    → refuse_reason room ≡ none
    → (reached room.token_remaining ≡ false) × (reached room.usd_remaining ≡ false)
unfolding refuse_reason
not_refused room h = elim (Bool-cases (reached room.usd_remaining)) [
  | inl usd ↦ (let bad : some CapReached.agent_usd_cap ≡ none = rw usd at h in cc)
  | inr usd ↦ elim (Bool-cases (reached room.token_remaining)) [
    | inl tokens ↦ (let bad : some CapReached.agent_token_cap ≡ none = rw (usd, tokens) at h in cc)
    | inr tokens ↦ (tokens, usd)
  ]
]

module _ (requested : Option ℤ) (daily : ℤ) (pot : Option ℤ) (used : ℕ) where
  -- The turn used no more than its `max_tokens`, for this room of the agent.
  abbrev pub Fits : Option ℤ → Type 0
  Fits room = pos used ≤ℤ clamp_max_tokens requested (turn_clamp daily pot room)

  within_room : (room : ℤ) → Fits (some room) → pos used ≤ℤ max_ℤ (pos 0) room
  unfolding clamp_max_tokens turn_clamp
  within_room room h = fits pot requested h
    where
      fits :
          (p r : Option ℤ)
          → pos used ≤ℤ clamp_max_tokens r (turn_clamp daily p (some room))
          → pos used ≤ℤ max_ℤ (pos 0) room
      fits none none h = ground arith
      fits none (some r) h = ground arith
      fits (some p) none h = ground arith
      fits (some p) (some r) h = ground arith

  within_tokens : (left : ℕ) (bought : Option ℤ) → Fits (tighter (some left) bought) → used ≤ left
  within_tokens left none h = (let within = within_room (pos left) h in ground arith)
  within_tokens left (some b) h = (let within = within_room _ h in ground arith)

  within_bought : (left : Option ℕ) (n : ℕ) → Fits (tighter left (some (pos n))) → used ≤ n
  within_bought none n h = (let within = within_room (pos n) h in ground arith)
  within_bought (some left) n h = (let within = within_room _ h in ground arith)

  pub under_cap :
      (cap : Option ℕ) (spent : ℕ) (bought : Option ℤ)
      → reached (left_of cap spent) ≡ false
      → Fits (tighter (left_of cap spent) bought)
      → UnderCap cap 0 (spent + used)
  under_cap none spent bought room_left h = tt
  under_cap (some cap) spent bought room_left h =
      let few = within_tokens (cap - spent) bought h in ground arith

  pub bought_affordable :
      (left : Option ℕ) (usd_left rate : ℕ)
      → 0 < rate
      → Fits (tighter left (usd_tokens (some usd_left) (some (pos rate))))
      → used * rate ≤ usd_left * 1000
  bought_affordable left usd_left rate known h =
      let bought = pot_tokens_lem usd_left rate known in
      let few = within_bought left (usd_left * 1000 / rate) (rw bought at h) in
      le_trans (mul_mono rate used (usd_left * 1000 / rate) few)
        (floor_lem (usd_left * 1000) rate known).0
