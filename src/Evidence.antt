-- ===== src/Evidence.antt =====
-- How strongly a claim is backed by what ran (backend/app/toolbench/grading.py and
-- backend/app/services/grounding.py): the grade ladder, and what the links of a claim add up to.
pub mod Grading
pub mod Ladder
pub mod Strongest
pub mod Grounding
pub mod Sides
pub mod Headlines
pub mod Yield
pub mod Counts
pub mod Movements
pub mod Reports
mod Tests
