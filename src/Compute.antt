-- ===== src/Compute.antt =====
-- What the tokens of a pass cost, and how much of a project's money passes may hold and spend
-- (backend/app/services/compute.py, funding.py and backend/app/agent/pricing.py).
pub mod Pricing
pub mod Budget
pub mod Solvency
pub mod Turns
mod Tests
