-- ===== src/Requirements.antt =====
-- src/requirements: the repository of analyses (repository.ts), the agent (worker.ts, validation.ts)
-- and the step to pending_approval (approval-transition.ts).
pub mod Repository
pub mod Agent
pub mod Judged
pub mod Advanced
pub mod Repeated
