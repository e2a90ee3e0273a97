-- ===== src/Compute/Solvency.antt =====
-- Reservations and debits (compute.py) against the money of a project.
use opentheory.Base.{
  ℕ, ◌+◌, ◌≤◌, ◌≡◌, refl, sym, ap, inl, inr, true, ◌||◌, Option, none, some, List, [], ◌∷◌, arith,
  ltb, ◌==◌, ==_iff, if◌then◌else◌, Bool-cases, Option-cases, elem,
}
use mathlib.Core.Path.{subst}
use opentheory.Meter.Room.{RateSource, openrouter_live, catalog_override, blended_fallback}
use opentheory.Compute.Pricing.{split_cost, tokens_to_cost, PriceQuote, usage_to_cost}
use opentheory.Compute.Budget.{
  FundingAllocation, AgentRun, Store, funded, spent, held, reserved, available, pass_reserve_amount,
  find_run, set_reserved, hold, reserve_run, reserve_compute_for_pass, release_compute_reservation,
  check, already_billed, record_compute_debit, settle_pass,
}

-- What a project has spent and holds is covered by what was funded.
abbrev pub IsSolvent : ℕ → Store → Type 0
IsSolvent project store =
    spent project store.debits + reserved project store.runs ≤ funded project store.funding

abbrev share : ℕ → AgentRun → ℕ
share project row = if row.project_id == project then held row.reserved_amount else 0

find_run-id :
    (id : ℕ) (rows : List AgentRun) {row : AgentRun} → find_run id rows ≡ some row → row.id ≡ id
find_run-id id [] h = cc
find_run-id id (first ∷ rows) {row} h = elim (Bool-cases (first.id == id)) [
  | inl here ↦
      let e : some first ≡ some row = rw here at h in
      let same : first ≡ row = cc in rw (← same) (ground arith)
  | inr there ↦ find_run-id id rows (rw there at h)
]

reserved-set_reserved :
    (project id : ℕ) (amount : Option ℕ) (rows : List AgentRun) {row : AgentRun}
    → find_run id rows ≡ some row
    → reserved project (set_reserved id amount rows) + share project row
      ≡ reserved project rows + share project (record row { reserved_amount = amount })
reserved-set_reserved project id amount [] h = cc
reserved-set_reserved project id amount (first ∷ rows) {row} h =
    elim (Bool-cases (first.id == id)) [
      | inl here ↦
          let e : some first ≡ some row = rw here at h in
          let same : first ≡ row = cc in rw (here, ← same) (omega arith)
      | inr there ↦
          let rest = reserved-set_reserved project id amount rows {row = row} (rw there at h) in
          rw there (omega arith)
    ]

set_reserved_missing :
    (id : ℕ) (amount : Option ℕ) (rows : List AgentRun)
    → find_run id rows ≡ none
    → set_reserved id amount rows ≡ rows
set_reserved_missing id amount [] h = refl
set_reserved_missing id amount (first ∷ rows) h = elim (Bool-cases (first.id == id)) [
  | inl here ↦ (let bad : some first ≡ none = rw here at h in cc)
  | inr there ↦ rw there (
      ap (λ (rest : List AgentRun). first ∷ rest)
        (set_reserved_missing id amount rows (rw there at h)))
]

pass_reserve_amount-le :
    (max_tokens amount rate : ℕ) → pass_reserve_amount max_tokens amount rate ≤ amount
unfolding pass_reserve_amount
pass_reserve_amount-le max_tokens amount rate = ground arith

release-IsSolvent :
    (project : ℕ) (store : Store) (id : ℕ)
    → IsSolvent project store
    → IsSolvent project (release_compute_reservation store id)
unfolding release_compute_reservation
release-IsSolvent project store id solvent = elim (Option-cases (find_run id store.runs)) [
  | inl missing ↦ rw (set_reserved_missing id none store.runs missing) solvent
  | inr (row, found) ↦
      (let change = reserved-set_reserved project id none store.runs found in ground arith)
]

hold-IsSolvent :
    (project : ℕ) (store : Store) (amount : ℕ) {row : AgentRun}
    → find_run row.id store.runs ≡ some row
    → held row.reserved_amount ≡ 0
    → amount ≤ available store row.project_id
    → IsSolvent project store
    → IsSolvent project (hold store row.id amount).1
hold-IsSolvent project store amount {row} found bare fits solvent =
    elim (Bool-cases (amount == 0)) [
      | inl nothing ↦ rw nothing solvent
      | inr more ↦
          let change = reserved-set_reserved project row.id (some amount) store.runs found in
          rw more (elim (Bool-cases (row.project_id == project)) [
            | inl mine ↦
                let same : row.project_id ≡ project = (==_iff row.project_id project).0 mine in
                let fits' : amount ≤ available store project = rw same at fits in ground arith
            | inr other ↦ ground arith
          ])
    ]

reserve_run-IsSolvent :
    (project : ℕ) (store : Store) (max_tokens rate id : ℕ) (o : Option AgentRun)
    → find_run id store.runs ≡ o
    → IsSolvent project store
    → IsSolvent project (reserve_run store max_tokens rate o).1
unfolding pass_reserve_amount
reserve_run-IsSolvent project store max_tokens rate id none found solvent = solvent
reserve_run-IsSolvent project store max_tokens rate id (some row) found solvent =
    elim (Bool-cases (ltb 0 (held row.reserved_amount))) [
      | inl holding ↦ rw holding solvent
      | inr bare ↦ rw bare (elim (Bool-cases (elem row.project_id store.projects)) [
        | inr unknown ↦ rw unknown solvent
        | inl known ↦
            let own : find_run row.id store.runs ≡ some row =
              subst (λ i. find_run i store.runs ≡ some row) (sym (find_run-id id store.runs found))
                found in
            rw known (
              hold-IsSolvent project store
                (pass_reserve_amount max_tokens (available store row.project_id) rate) own
                (ground arith)
                (pass_reserve_amount-le max_tokens (available store row.project_id) rate) solvent)
      ])
    ]

reserve-IsSolvent :
    (project : ℕ) (store : Store) (id max_tokens rate : ℕ)
    → IsSolvent project store
    → IsSolvent project (reserve_compute_for_pass store id max_tokens rate).1
unfolding reserve_compute_for_pass pass_reserve_amount
reserve-IsSolvent project store id max_tokens rate solvent =
    reserve_run-IsSolvent project store max_tokens rate id (find_run id store.runs) refl solvent

-- What may happen to the money of projects: funding arrives, a pass reserves or drops its hold, and a
-- pass whose cost its hold covers ends.
pub data Step (store : Store) : Store → Type 0 where
  fund : (row : FundingAllocation) → Step store (record store { funding = row ∷ store.funding })
  reserve :
      (id max_tokens rate : ℕ) → Step store (reserve_compute_for_pass store id max_tokens rate).1
  release : (id : ℕ) → Step store (release_compute_reservation store id)
  settle :
      (row : AgentRun) (tokens : ℕ) (prompt completion : Option ℕ) (quote : PriceQuote)
      → find_run row.id store.runs ≡ some row
      → usage_to_cost tokens prompt completion quote ≤ held row.reserved_amount
      → Step store (settle_pass store row tokens prompt completion quote)

pub data Reach (store : Store) : Store → Type 0 where
  here : Reach store store
  next : {before after : Store} → Reach store before → Step before after → Reach store after

no_split :
    (tokens : ℕ) (source : RateSource) (prompt completion : Option ℕ)
    → split_cost tokens source prompt completion none none ≡ none
unfolding tokens_to_cost
no_split tokens openrouter_live (some prompt) (some completion) = refl
no_split tokens openrouter_live (some prompt) none = refl
no_split tokens openrouter_live none completion = refl
no_split tokens catalog_override prompt completion = refl
no_split tokens blended_fallback prompt completion = refl

-- A usage without a split that passed the check of a pass costs less than its hold.
pub check_covers :
    (amount tokens : ℕ) (quote : PriceQuote)
    → check amount quote.effective_rate_per_1k tokens ≡ true
    → usage_to_cost tokens none none quote ≤ amount
unfolding check usage_to_cost tokens_to_cost
check_covers amount tokens quote h =
    rw (no_split tokens quote.source quote.prompt_rate_per_1k quote.completion_rate_per_1k)
      (ground arith)

settle-IsSolvent :
    (project : ℕ) (store : Store) (row : AgentRun) (tokens : ℕ) (prompt completion : Option ℕ)
    (quote : PriceQuote)
    → find_run row.id store.runs ≡ some row
    → usage_to_cost tokens prompt completion quote ≤ held row.reserved_amount
    → IsSolvent project store
    → IsSolvent project (settle_pass store row tokens prompt completion quote)
unfolding settle_pass record_compute_debit release_compute_reservation
settle-IsSolvent project store row tokens prompt completion quote found covered solvent =
    let change = reserved-set_reserved project row.id none store.runs found in
    elim (Bool-cases (tokens == 0 || already_billed (some row.id) store.debits)) [
      | inl free ↦ rw free (ground arith)
      | inr due ↦ rw due (ground arith)
    ]

Step-IsSolvent :
    (project : ℕ) {before after : Store}
    → Step before after
    → IsSolvent project before
    → IsSolvent project after
Step-IsSolvent project (fund row) solvent = ground arith
Step-IsSolvent project {before} (reserve id max_tokens rate) solvent =
    reserve-IsSolvent project before id max_tokens rate solvent
Step-IsSolvent project {before} (release id) solvent = release-IsSolvent project before id solvent
Step-IsSolvent project {before} (settle row tokens prompt completion quote found covered) solvent =
    settle-IsSolvent project before row tokens prompt completion quote found covered solvent

-- Where what a project has spent and holds is covered by its settled funding, it stays so however its
-- passes reserve, drop their holds and end within them, in any order, and funding arrives.
pub Reach-IsSolvent :
    (project : ℕ) {before after : Store}
    → Reach before after
    → IsSolvent project before
    → IsSolvent project after
Reach-IsSolvent project here solvent = solvent
Reach-IsSolvent project (next way step) solvent =
    Step-IsSolvent project step (Reach-IsSolvent project way solvent)
