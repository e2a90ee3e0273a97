-- ===== src/Compute/Pricing.antt =====
-- backend/app/agent/pricing.py and the rates of backend/app/services/compute.py. Money and rates are in
-- millionths of a dollar, rates for 1000 tokens, and within the 28 digits of Python's decimals. A count
-- of tokens or a rate below 0 is read as 0, which the same tests answer.
use opentheory.Base.{
  ℕ, ◌+◌, ◌-◌, ◌*◌, ◌/◌, not, ◌&&◌, Option, none, some, List, [], ◌∷◌, ltb, ◌==◌, if◌then◌else◌,
  is_none,
}
use opentheory.Base.Text.{Text, text_eq}
use opentheory.Meter.Room.{RateSource, openrouter_live, catalog_override, blended_fallback}

-- `(tokens * rate / 1000).quantize(...)`, rounding half up; the tests of the code answer 0 where this
-- is 0.
unfoldable pub tokens_to_cost : ℕ → ℕ → ℕ
tokens_to_cost tokens rate = (tokens * rate + 500) / 1000

-- The prompt's and the completion's rate; `mean_per_1k` is the mean, rounded half up.
pub record ModelRate : Type 0 where
  pub prompt_per_1k : ℕ
  pub completion_per_1k : ℕ

abbrev pub mean_per_1k : ModelRate → ℕ
mean_per_1k rate = (rate.prompt_per_1k + rate.completion_per_1k + 1) / 2

pub record PriceQuote : Type 0 where
  pub source : RateSource
  pub effective_rate_per_1k : ℕ
  pub prompt_rate_per_1k : Option ℕ
  pub completion_rate_per_1k : Option ℕ

abbrev pub live_quote : ModelRate → PriceQuote
live_quote rate = record {
  source = openrouter_live;
  effective_rate_per_1k = mean_per_1k rate;
  prompt_rate_per_1k = some rate.prompt_per_1k;
  completion_rate_per_1k = some rate.completion_per_1k;
}

-- An entry of `OPENROUTER_MODELS`, with its own rate if it has one.
pub record ModelOption : Type 0 where
  pub id : Text
  pub usd_per_1k : Option ℕ

-- The rate of the first entry that is the model's and has one.
abbrev pub override_of : Text → List ModelOption → Option ℕ
override_of model [] = none
override_of model (option ∷ options) =
    if text_eq option.id model && not (is_none option.usd_per_1k)
    then option.usd_per_1k
    else override_of model options

abbrev pub rate_or : Option ℕ → ℕ → ℕ
rate_or none default = default
rate_or (some rate) default = rate

-- `rate_for_model`, for the catalog and the default of the settings; `none` is no model, and the
-- empty text is not looked up.
unfoldable pub rate_for_model : List ModelOption → ℕ → Option Text → ℕ
rate_for_model options default none = default
rate_for_model options default (some []) = default
rate_for_model options default (some (c ∷ cs)) = rate_or (override_of (c ∷ cs) options) default

abbrev pub fallback_of : Option ℕ → ℕ → PriceQuote
fallback_of none default = record {
  source = blended_fallback;
  effective_rate_per_1k = default;
  prompt_rate_per_1k = none;
  completion_rate_per_1k = none;
}
fallback_of (some rate) default = record {
  source = catalog_override;
  effective_rate_per_1k = rate;
  prompt_rate_per_1k = none;
  completion_rate_per_1k = none;
}

unfoldable pub blended_fallback_quote : List ModelOption → ℕ → Option Text → PriceQuote
blended_fallback_quote options default none = fallback_of none default
blended_fallback_quote options default (some []) = fallback_of none default
blended_fallback_quote options default (some (c ∷ cs)) =
    fallback_of (override_of (c ∷ cs) options) default

-- The two rates and the two counts, where a live quote and the usage have all of them.
abbrev pub split_cost : ℕ → RateSource → Option ℕ → Option ℕ → Option ℕ → Option ℕ → Option ℕ
unfolding tokens_to_cost
split_cost tokens openrouter_live (some prompt_rate) (some completion_rate) (some prompt)
      (some completion) =
    some (
      tokens_to_cost prompt prompt_rate
      + tokens_to_cost (completion + (tokens - prompt - completion)) completion_rate)
split_cost tokens _ _ _ _ _ = none

abbrev pub cost_or : Option ℕ → ℕ → ℕ
cost_or none total = total
cost_or (some cost) total = cost

unfoldable pub usage_to_cost : ℕ → Option ℕ → Option ℕ → PriceQuote → ℕ
usage_to_cost tokens prompt completion quote =
    if tokens == 0
    then 0
    else cost_or
        (split_cost tokens quote.source quote.prompt_rate_per_1k quote.completion_rate_per_1k prompt
          completion)
        (tokens_to_cost tokens quote.effective_rate_per_1k)

-- `_realized_rate_per_1k`
unfoldable pub realized_rate : ℕ → ℕ → PriceQuote → ℕ
realized_rate tokens amount quote =
    if ltb 0 tokens && ltb 0 amount
    then (2 * amount * 1000 + tokens) / (2 * tokens)
    else quote.effective_rate_per_1k
