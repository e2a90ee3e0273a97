-- ===== src/Compute/Tests.antt =====
-- Runs of reservations and debits, and the theorems at concrete inputs.
use opentheory.Base.{◌≤◌, ◌≡◌, refl, true, none, some, [], ◌∷◌, arith}
use opentheory.Meter.Room.{blended_fallback}
use opentheory.Compute.Pricing.{tokens_to_cost, PriceQuote, usage_to_cost}
use opentheory.Compute.Budget.{
  AgentRun, Store, find_run, reserve_compute_for_pass, check, settle_pass,
}
use opentheory.Compute.Solvency.{
  IsSolvent, reserve, settle, here, next, check_covers, Reach-IsSolvent,
}

abbrev quote : PriceQuote
quote = record {
  source = blended_fallback;
  effective_rate_per_1k = 2_000;
  prompt_rate_per_1k = none;
  completion_rate_per_1k = none;
}

abbrev pot : Store
pot = record {
  projects = 1 ∷ [];
  funding = record { project_id = 1; amount = 150_000; settled = true } ∷ [];
  debits = [];
  runs =
      record { id = 8; project_id = 1; reserved_amount = none }
      ∷ record { id = 9; project_id = 1; reserved_amount = none }
      ∷ [];
}

-- The envelope of the first pass is 0.1 dollars, and the second is left with half of that.
abbrev two_passes : Store
two_passes =
    (reserve_compute_for_pass (reserve_compute_for_pass pot 8 50_000 2_000).1 9 50_000 2_000).1

second_hold :
    (reserve_compute_for_pass (reserve_compute_for_pass pot 8 50_000 2_000).1 9 50_000 2_000).0
    ≡ some 50_000
unfolding reserve_compute_for_pass
second_hold = refl

abbrev first_row : AgentRun
first_row = record { id = 8; project_id = 1; reserved_amount = some 100_000 }

affordable : usage_to_cost 40_000 none none quote ≤ 100_000
unfolding check tokens_to_cost
affordable = check_covers 100_000 40_000 quote refl

found_first : find_run 8 two_passes.runs ≡ some first_row
unfolding reserve_compute_for_pass
found_first = refl

pot-IsSolvent : IsSolvent 1 pot
pot-IsSolvent = omega arith

Reach-IsSolvent_example : IsSolvent 1 (settle_pass two_passes first_row 40_000 none none quote)
Reach-IsSolvent_example =
    Reach-IsSolvent 1
      (next (next (next here (reserve 8 50_000 2_000)) (reserve 9 50_000 2_000))
        (settle first_row 40_000 none none quote found_first affordable))
      pot-IsSolvent
