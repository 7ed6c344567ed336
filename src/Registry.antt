-- ===== src/Registry.antt =====
-- src/repository-registry/repository.ts: which repositories a project maps to, and on which branches.
pub mod Records
pub mod Branches
pub mod RoundTrip
