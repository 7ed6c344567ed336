-- ===== src/Deploy/Records.antt =====
-- src/deployment/types.ts and deployment-repository.ts: the stored row and the service's answer.
use aisdlc.Prelude.{ℕ, Option, Bool, false, ◌&&◌}
use aisdlc.Text.{Text}
use aisdlc.Store.{ObjectId}
use aisdlc.Collections.{DeploymentStatus}

pub data DeploymentFailureCategory : Type 0 where
  not_eligible configuration_invalid pr_access_failure : DeploymentFailureCategory
  pr_identity_mismatch conflict : DeploymentFailureCategory
  deployment_provider_failure deployment_timeout deployment_rejected : DeploymentFailureCategory
  validation_failed validation_timeout already_deployed : DeploymentFailureCategory
  unexpected_error : DeploymentFailureCategory

unfoldable pub is_retryable_deployment_category : DeploymentFailureCategory → Bool
is_retryable_deployment_category category = false

pub record DeploymentValidationStepResult : Type 0 where
  pub passed : Bool
  pub summary : Text

pub record PostDeploymentValidationSummary : Type 0 where
  pub health : DeploymentValidationStepResult
  pub readiness : DeploymentValidationStepResult

unfoldable pub is_post_deployment_validation_successful : PostDeploymentValidationSummary → Bool
is_post_deployment_validation_successful v = v.health.passed && v.readiness.passed

pub record Deployment : Type 0 where
  pub id : ObjectId
  pub run_id : ObjectId
  pub execution_id : ObjectId
  pub publication_id : ObjectId
  pub owner : Text
  pub repo : Text
  pub pull_request_number : ℕ
  pub merge_commit_sha : Option Text
  pub status : DeploymentStatus
  pub provider : Option Text
  pub target : Option Text
  pub deployment_identifier : Option Text
  pub validation : Option PostDeploymentValidationSummary
  pub failure_category : Option DeploymentFailureCategory
  pub failure_message : Option Text
  pub created_at : ℕ
  pub started_at : Option ℕ
  pub completed_at : Option ℕ

-- The message of a failure is for people only and is left out.
pub data DeploymentResult : Type 0 where
  deployed :
      (run_id deployment_id : ObjectId) (deployment_identifier : Text)
      (validation : PostDeploymentValidationSummary)
      → DeploymentResult
  not_deployed :
      (run_id deployment_id : ObjectId) (category : DeploymentFailureCategory) (retryable : Bool)
      → DeploymentResult
