-- ===== src/Meter/Caps.antt =====
-- backend/app/services/agent_caps.py: what the caps of an agent's seat leave for a turn. A cap and the
-- amount of a debit are not negative, and the debits given are those of the project.
pub mod Fitting
use opentheory.Base.{
  ℕ, ◌+◌, ◌-◌, Bool, false, ◌||◌, not, ◌&&◌, Option, none, some, List, [], ◌∷◌, ◌==◌, if◌then◌else◌,
  opt_eq,
}
use opentheory.Base.Int.{ℤ, pos, leb_ℤ, min_ℤ, pos_part}
use opentheory.Meter.Notes.{Uuids, is_daily_cap_adjustment}
use opentheory.Meter.Holds.{Row, unmatched_holds}
use opentheory.Meter.Room.{pot_tokens_from_available}

pub record AgentCapRoom : Type 0 where
  pub token_cap : Option ℕ
  pub usd_cap : Option ℕ
  pub tokens_billed : ℕ
  pub amount_billed : ℕ
  pub tokens_held : ℕ
  pub token_remaining : Option ℕ
  pub usd_remaining : Option ℕ

abbrev pub reached : Option ℕ → Bool
reached none = false
reached (some left) = left == 0

pub data CapReached : Type 0 where
  agent_usd_cap agent_token_cap : CapReached

-- `none` where no cap that is set is reached.
unfoldable pub refuse_reason : AgentCapRoom → Option CapReached
refuse_reason room =
    if reached room.usd_remaining
    then some agent_usd_cap
    else if reached room.token_remaining
    then some agent_token_cap
    else none

-- Subtraction stops at 0, as `max(0, ...)` does.
abbrev pub left_of : Option ℕ → ℕ → Option ℕ
left_of none spent = none
left_of (some cap) spent = some (cap - spent)

abbrev pub is_billed : ℕ → Row → Bool
is_billed actor row =
    opt_eq row.actor_id (some actor)
    && not (leb_ℤ row.tokens_used (pos 0) || is_daily_cap_adjustment row.notes)

-- `billed_agent_spend`: tokens and amount of the actor's debits, without holds and releases.
unfoldable pub billed_agent_spend : ℕ → List Row → ℕ × ℕ
billed_agent_spend actor [] = (0, 0)
billed_agent_spend actor (row ∷ rows) =
    let rest = billed_agent_spend actor rows in
    if is_billed actor row
    then (pos_part row.tokens_used + rest.0, pos_part row.amount + rest.1)
    else rest

abbrev pub held_by : ℕ → List Row → ℕ
held_by actor [] = 0
held_by actor (row ∷ rows) =
    (if opt_eq row.actor_id (some actor) then pos_part row.tokens_used else 0) + held_by actor rows

-- Of the holds and releases of the day.
unfoldable pub outstanding_hold_tokens : Uuids → ℕ → List Row → ℕ
unfolding unmatched_holds
outstanding_hold_tokens u actor today = held_by actor (unmatched_holds u today)

abbrev pub cap_room : Option ℕ → Option ℕ → ℕ → ℕ → ℕ → AgentCapRoom
cap_room token_cap usd_cap tokens amount held = record {
  token_cap = token_cap;
  usd_cap = usd_cap;
  tokens_billed = tokens;
  amount_billed = amount;
  tokens_held = held;
  token_remaining = left_of token_cap (tokens + held);
  usd_remaining = left_of usd_cap amount;
}

abbrev pub held_if : Option ℕ → ℕ → ℕ
held_if none held = 0
held_if (some cap) held = held

-- For the caps of the seat's row, both `none` where there is none.
unfoldable pub load_agent_cap_room :
    Uuids → ℕ → Option ℕ → Option ℕ → List Row → List Row → AgentCapRoom
unfolding billed_agent_spend outstanding_hold_tokens
load_agent_cap_room u actor token_cap usd_cap debits today =
    let billed = billed_agent_spend actor debits in
    cap_room token_cap usd_cap billed.0 billed.1
      (held_if token_cap (outstanding_hold_tokens u actor today))

abbrev pub usd_tokens : Option ℕ → Option ℤ → Option ℤ
usd_tokens (some left) (some rate) = pot_tokens_from_available (pos left) rate
usd_tokens _ _ = none

abbrev pub tighter : Option ℕ → Option ℤ → Option ℤ
tighter none bought = bought
tighter (some room) none = some (pos room)
tighter (some room) (some bought) = some (min_ℤ (pos room) bought)

unfoldable pub agent_token_room_for_clamp : AgentCapRoom → Option ℤ → Option ℤ
agent_token_room_for_clamp room rate =
    tighter room.token_remaining (usd_tokens room.usd_remaining rate)
