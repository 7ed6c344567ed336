-- ===== src/Selection.antt =====
-- src/repository-selection: the repository of selections (repository.ts) and the matching of
-- candidates (worker.ts).
pub mod Repository
pub mod Matching
pub mod Confirm
pub mod Matched
pub mod Worker
pub mod Counted
