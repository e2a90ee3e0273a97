-- ===== src/Meter/Room.antt =====
-- The room of one harness turn: the daily, pot and agent clamps of harness_meter.py, and the time
-- that a hold may stay open.
-- Money and rates are whole millionths of a dollar, the scale of the `Numeric(12, 6)` columns: at
-- that scale every quotient that the code floors is exact in Python's 28-digit decimals. Times are
-- whole microseconds, the resolution of `datetime`.
pub mod Bounds
use opentheory.Base.{
  ℕ, ◌+◌, ◌-◌, ◌*◌, ◌/◌, Bool, true, false, not, ◌||◌, Option, none, some, [], ◌∷◌, if◌then◌else◌,
}
use opentheory.Base.Int.{ℤ, pos, negsuc, ◌-ℤ◌, ◌+ℤ◌, ltb_ℤ, leb_ℤ, min_ℤ, max_ℤ, pos_part}
use opentheory.Base.Text.{Text, strip, parse_int}

pub data BudgetState : Type 0 where
  unfunded available exhausted : BudgetState

unfoldable pub budget_state : ℤ → ℤ → BudgetState
budget_state funded left =
    if leb_ℤ funded (pos 0) then unfunded else if leb_ℤ left (pos 0) then exhausted else available

-- A duration in seconds as microseconds.
abbrev pub seconds : ℤ → ℤ
seconds (pos n) = pos (n * 1000000)
seconds (negsuc n) = negsuc (n * 1000000 + 999999)

unfoldable pub max_turn_duration_seconds : ℤ → ℤ → ℤ
max_turn_duration_seconds provider_timeout margin = provider_timeout +ℤ margin

unfoldable pub hold_ttl_covers_turn : ℤ → ℤ → ℤ → Bool
unfolding max_turn_duration_seconds
hold_ttl_covers_turn ttl_seconds provider_timeout margin =
    if ltb_ℤ ttl_seconds (pos 1) || leb_ℤ provider_timeout (pos 0) || ltb_ℤ margin (pos 0)
    then false
    else ltb_ℤ (max_turn_duration_seconds provider_timeout margin) (seconds ttl_seconds)

-- `created_at` and `now` count microseconds from one origin.
unfoldable pub is_hold_stale : ℕ → ℤ → ℕ → Bool
is_hold_stale created_at ttl_seconds now =
    if ltb_ℤ ttl_seconds (pos 1)
    then false
    else leb_ℤ (seconds ttl_seconds) (pos now -ℤ pos created_at)

pub data RateSource : Type 0 where
  openrouter_live catalog_override blended_fallback : RateSource

-- A source that is no `ComputeDebitRateSource` is `none`, like a missing one.
unfoldable pub price_is_known : Option RateSource → Bool
price_is_known none = false
price_is_known (some openrouter_live) = true
price_is_known (some catalog_override) = true
price_is_known (some blended_fallback) = false

-- One turn of the loop over the two split rates: a positive rate joins the largest so far.
abbrev pub larger_rate : Option ℤ → Option ℤ → Option ℤ
larger_rate best none = best
larger_rate none (some rate) = if ltb_ℤ (pos 0) rate then some rate else none
larger_rate (some best) (some rate) =
    if ltb_ℤ (pos 0) rate then some (max_ℤ best rate) else some best

unfoldable pub clamp_rate_per_1k : ℤ → Option ℤ → Option ℤ → ℤ
clamp_rate_per_1k effective prompt completion =
    elim (larger_rate (larger_rate none prompt) completion) [ none ↦ effective | some rate ↦ rate ]

unfoldable pub pot_tokens_from_available : ℤ → ℤ → Option ℤ
pot_tokens_from_available left rate =
    if leb_ℤ rate (pos 0)
    then none
    else if leb_ℤ left (pos 0)
    then some (pos 0)
    else some (pos (pos_part left * 1000 / pos_part rate))

-- `if bound is not None: room = min(room, max(0, bound))`
abbrev pub bounded : Option ℤ → ℤ → ℤ
bounded none room = room
bounded (some bound) room = min_ℤ room (max_ℤ (pos 0) bound)

unfoldable pub turn_clamp : ℤ → Option ℤ → Option ℤ → ℤ
turn_clamp daily_room pot_room agent_room =
    bounded agent_room (bounded pot_room (if ltb_ℤ daily_room (pos 0) then pos 0 else daily_room))

abbrev pub request_or : Option ℤ → ℤ → ℤ
request_or none room = room
request_or (some requested) room = if ltb_ℤ requested (pos 1) then room else min_ℤ requested room

unfoldable pub clamp_max_tokens : Option ℤ → ℤ → ℤ
clamp_max_tokens requested room = if ltb_ℤ room (pos 1) then pos 0 else request_or requested room

unfoldable pub overshoot_tokens : ℤ → ℤ → ℤ
overshoot_tokens tokens_used clamp = if leb_ℤ tokens_used clamp then pos 0 else tokens_used -ℤ clamp

pub data ProcessIntSource : Type 0 where
  default process_env invalid : ProcessIntSource

pub record ProcessInt : Type 0 where
  pub value : Option ℤ
  pub source : ProcessIntSource

abbrev pub checked : Option ℤ → ProcessInt
checked none = record { value = none; source = invalid }
checked (some value) =
    if ltb_ℤ value (pos 1)
    then record { value = none; source = invalid }
    else record { value = some value; source = process_env }

abbrev pub raw_or : Text → ℤ → ProcessInt
raw_or [] fallback = record { value = some fallback; source = default }
raw_or (c ∷ raw) fallback = checked (parse_int (c ∷ raw))

-- The variable's text is `none` where the environment does not set it.
unfoldable pub peek_process_int : ℤ → Option Text → ProcessInt
peek_process_int fallback none = raw_or (strip []) fallback
peek_process_int fallback (some text) = raw_or (strip text) fallback
