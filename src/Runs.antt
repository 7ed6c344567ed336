-- ===== src/Runs.antt =====
-- src/orchestrator: the runs repository (repository.ts) and the pass that queues one run for each
-- approved intake item (worker.ts).
pub mod Repository
pub mod Worker
pub mod Laws
pub mod Once
pub mod Pass
pub mod Progress
