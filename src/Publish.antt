-- ===== src/Publish.antt =====
-- src/github-publish: the names of the branches that are published (branch-name.ts), the record of a
-- publication (publish-repository.ts) and the service (publish-service.ts): its checks (Verify), the
-- attempt (Build, Push, Attempt) and the two together (Service).
pub mod BranchName
pub mod Records
pub mod Publications
pub mod Once
pub mod Verify
pub mod Content
pub mod Digits
pub mod Build
pub mod Push
pub mod Attempt
pub mod Service
pub mod Checks
pub mod Cleared
pub mod Confined
pub mod Namespace
pub mod Contained
pub mod Pushed
pub mod Published
pub mod Bounded
pub mod Valid
