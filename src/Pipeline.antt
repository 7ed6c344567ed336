-- ===== src/Pipeline.antt =====
-- src/pipeline: the view of a run's progress (run-status.ts) and the passes that drive the services
-- (change-execution-queue.ts, github-publish-queue.ts).
pub mod RunStage
pub mod Stages
pub mod Queues
pub mod Drained
