-- ===== src/Ledger.antt =====
-- The research ledger (backend/app/services/checkpoints.py, branches.py, merges.py and tags.py): the
-- checkpoint chokepoint and the operations that compose with it.
pub mod Store
pub mod Checkpoints
pub mod Branches
pub mod Merges
pub mod Tags
pub mod Chokepoint
pub mod Advance
pub mod Sealing
pub mod Steps
pub mod Operations
pub mod Validity
pub mod Immutable
pub mod Outcomes
mod Tests
