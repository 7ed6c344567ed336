-- ===== src/Execution.antt =====
-- src/change-execution: the review of a proposal (review-repository.ts), the record of an execution
-- (execution-repository.ts) and the local application of the changes (local-apply.ts).
pub mod Disk
pub mod LocalApply
pub mod Reviews
pub mod Executions
pub mod Decisions
pub mod Confined
pub mod Atomic
pub mod Proposed
pub mod Recorded
pub mod MemoryDisk
pub mod Eligibility
pub mod Authorized
