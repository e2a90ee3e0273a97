-- ===== src/Compute/Turns.antt =====
-- What a harness turn costs (backend/app/harness/session.py: the clamp of `authorize`; its price by
-- backend/app/agent/pricing.py). `max_tokens` bounds what a provider writes, not the prompt it reads.
-- One quote stands for the clamp and for the bill: `record_spend` looks the price up again, and the two
-- are the same where the price did not change during the turn.
use opentheory.Base.{ℕ, ◌+◌, ◌-◌, Option, none, some, ltb, ◌==◌, if◌then◌else◌}
use opentheory.Base.Int.{ℤ, pos}
use opentheory.Meter.Room.{clamp_rate_per_1k}
use opentheory.Compute.Pricing.{
  ModelRate, PriceQuote, live_quote, fallback_of, rate_or, tokens_to_cost,
}

abbrev signed : Option ℕ → Option ℤ
signed none = none
signed (some rate) = some (pos rate)

-- `clamp_rate` of `authorize`, for the quote of a known price.
abbrev pub clamp_rate : PriceQuote → ℤ
clamp_rate quote =
    clamp_rate_per_1k (pos quote.effective_rate_per_1k) (signed quote.prompt_rate_per_1k)
      (signed quote.completion_rate_per_1k)

-- The quotes that `price_is_known` lets through: a live rate, or the rate of the model's own entry.
pub data KnownPrice : PriceQuote → Type 0 where
  live : (rate : ModelRate) → KnownPrice (live_quote rate)
  listed : (rate default : ℕ) → KnownPrice (fallback_of (some rate) default)

-- What a usage counts beside its prompt: the completion, and the remainder billed like it.
abbrev pub written : ℕ → ℕ → ℕ → ℕ
written used prompt completion = completion + (used - prompt - completion)

-- What the prompt costs.
abbrev pub prompt_cost : PriceQuote → ℕ → ℕ
prompt_cost quote prompt =
    tokens_to_cost prompt (rate_or quote.prompt_rate_per_1k quote.effective_rate_per_1k)

-- The larger of the split rates, or else the effective one.
abbrev top_rate : ℕ → ℕ → ℕ → ℕ
top_rate effective prompt completion =
    if ltb prompt completion then completion else if prompt == 0 then effective else prompt
