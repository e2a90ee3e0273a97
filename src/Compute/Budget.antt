-- ===== src/Compute/Budget.antt =====
-- backend/app/services/compute.py: reservations, debits and the check of a pass, with the sums of
-- `project_budget` (funding.py). Amounts are in millionths of a dollar.
use opentheory.Base.{
  ℕ, ◌+◌, ◌-◌, Bool, false, not, ◌&&◌, ◌||◌, Option, none, some, List, [], ◌∷◌, ltb, leb, ◌==◌,
  if◌then◌else◌, opt_eq, elem,
}
use opentheory.Compute.Pricing.{tokens_to_cost, PriceQuote, usage_to_cost, realized_rate}

pub record FundingAllocation : Type 0 where
  pub project_id : ℕ
  pub amount : ℕ
  pub settled : Bool

pub record ComputeDebit : Type 0 where
  pub project_id : ℕ
  pub agent_run_id : Option ℕ
  pub tokens_used : ℕ
  pub amount : ℕ
  pub rate_per_1k : ℕ

pub record AgentRun : Type 0 where
  pub id : ℕ
  pub project_id : ℕ
  pub reserved_amount : Option ℕ

pub record Store : Type 0 where
  pub projects : List ℕ
  pub funding : List FundingAllocation
  pub debits : List ComputeDebit
  pub runs : List AgentRun

abbrev pub funded : ℕ → List FundingAllocation → ℕ
funded project [] = 0
funded project (row ∷ rows) =
    (if row.project_id == project && row.settled then row.amount else 0) + funded project rows

-- `project_compute_spent`
abbrev pub spent : ℕ → List ComputeDebit → ℕ
spent project [] = 0
spent project (row ∷ rows) =
    (if row.project_id == project then row.amount else 0) + spent project rows

abbrev pub held : Option ℕ → ℕ
held none = 0
held (some amount) = amount

-- `project_compute_reserved`
abbrev pub reserved : ℕ → List AgentRun → ℕ
reserved project [] = 0
reserved project (row ∷ rows) =
    (if row.project_id == project then held row.reserved_amount else 0) + reserved project rows

-- `project_budget(...).available`, where it is above 0, and 0 where it is not.
abbrev pub available : Store → ℕ → ℕ
available store project =
    funded project store.funding - (spent project store.debits + reserved project store.runs)

abbrev pub smaller : ℕ → ℕ → ℕ
smaller a b = if leb a b then a else b

-- For `settings.agent_pass_max_tokens`.
unfoldable pub pass_reserve_amount : ℕ → ℕ → ℕ → ℕ
unfolding tokens_to_cost
pass_reserve_amount max_tokens amount rate =
    let envelope = tokens_to_cost max_tokens rate in
    if amount == 0 then 0 else if envelope == 0 then amount else smaller envelope amount

abbrev pub find_run : ℕ → List AgentRun → Option AgentRun
find_run id [] = none
find_run id (row ∷ rows) = if row.id == id then some row else find_run id rows

abbrev pub set_reserved : ℕ → Option ℕ → List AgentRun → List AgentRun
set_reserved id amount [] = []
set_reserved id amount (row ∷ rows) =
    if row.id == id
    then record row { reserved_amount = amount } ∷ rows
    else row ∷ set_reserved id amount rows

abbrev pub hold : Store → ℕ → ℕ → Option ℕ × Store
hold store id amount =
    if amount == 0
    then (none, store)
    else (some amount, record store { runs = set_reserved id (some amount) store.runs })

abbrev pub reserve_new : Store → ℕ → ℕ → ℕ → ℕ → Option ℕ × Store
unfolding pass_reserve_amount
reserve_new store id project max_tokens rate =
    if not (elem project store.projects)
    then (none, store)
    else hold store id (pass_reserve_amount max_tokens (available store project) rate)

-- The hold that a pass has keeps standing.
abbrev pub reserve_run : Store → ℕ → ℕ → Option AgentRun → Option ℕ × Store
unfolding pass_reserve_amount
reserve_run store max_tokens rate none = (none, store)
reserve_run store max_tokens rate (some row) =
    if ltb 0 (held row.reserved_amount)
    then (row.reserved_amount, store)
    else reserve_new store row.id row.project_id max_tokens rate

unfoldable pub reserve_compute_for_pass : Store → ℕ → ℕ → ℕ → Option ℕ × Store
unfolding reserve_run
reserve_compute_for_pass store id max_tokens rate =
    reserve_run store max_tokens rate (find_run id store.runs)

unfoldable pub release_compute_reservation : Store → ℕ → Store
release_compute_reservation store id = record store { runs = set_reserved id none store.runs }

-- `ProjectBudgetPolicy(available, rate_per_1k=rate).check(tokens_used=tokens)`
unfoldable pub check : ℕ → ℕ → ℕ → Bool
unfolding tokens_to_cost
check amount rate tokens = not (amount == 0) && ltb (tokens_to_cost tokens rate) amount

abbrev pub billed : ℕ → List ComputeDebit → Bool
billed id [] = false
billed id (row ∷ rows) = opt_eq row.agent_run_id (some id) || billed id rows

abbrev pub already_billed : Option ℕ → List ComputeDebit → Bool
already_billed none rows = false
already_billed (some id) rows = billed id rows

unfoldable pub record_compute_debit :
    Store → ℕ → Option ℕ → ℕ → Option ℕ → Option ℕ → PriceQuote → Store
unfolding usage_to_cost realized_rate
record_compute_debit store project run tokens prompt completion quote =
    let amount = usage_to_cost tokens prompt completion quote in
    if tokens == 0 || already_billed run store.debits then store else record store {
      debits =
          record {
            project_id = project;
            agent_run_id = run;
            tokens_used = tokens;
            amount = amount;
            rate_per_1k = realized_rate tokens amount quote;
          }
          ∷ store.debits;
    }

-- A pass that ends (backend/app/services/agent_runs.py): its debit, if it used tokens, and the end
-- of its hold.
unfoldable pub settle_pass : Store → AgentRun → ℕ → Option ℕ → Option ℕ → PriceQuote → Store
unfolding record_compute_debit release_compute_reservation
settle_pass store row tokens prompt completion quote =
    release_compute_reservation
      (record_compute_debit store row.project_id (some row.id) tokens prompt completion quote)
      row.id
