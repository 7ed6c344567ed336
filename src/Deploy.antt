-- ===== src/Deploy.antt =====
-- src/deployment: what is stored of a deployment (deployment-repository.ts, types.ts), the service that
-- runs it (deployment-service.ts), and the detection of merges (pr-merge-detection.ts).
pub mod Records
pub mod Deployments
pub mod Service
pub mod Claimed
pub mod Lifecycle
pub mod Followed
pub mod Detection
pub mod Detected
pub mod Passed
