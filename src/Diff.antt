-- ===== src/Diff.antt =====
-- The semantic diff of two tips of a project (backend/app/services/diff.py, with the signal of a claim
-- from claims.py): the ancestry of the tips, and what moved between them.
pub mod Ancestry
pub mod Walks
pub mod Sets
pub mod Bases
pub mod Claims
pub mod Changes
pub mod Forward
pub mod Refs
pub mod Placing
mod Tests
