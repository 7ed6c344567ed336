-- ===== src/Deploy/Deployments.antt =====
-- src/deployment/deployment-repository.ts: createIfAbsent on the unique publication id, the claim, and
-- the two ends of a deployment.
use aisdlc.Prelude.{
  Bool, true, false, ◌==◌, ◌&&◌, if◌then◌else◌, ℕ, Option, List, some, none, [], ◌∷◌,
}
use aisdlc.Effect.{◌>>=◌, pure, throw}
use aisdlc.Db.{Db, World}
use aisdlc.Collections.{DeploymentStatus, AuditSubjectType}
use aisdlc.Documents.{Datum, an_id, a_text, a_number}
use aisdlc.Store.{ObjectId}
use aisdlc.Text.{Text, codes}
use aisdlc.Access.{Stored, find_one, find_one_and_update, insert_or_winner}
use aisdlc.AuditLog.{AuditEntryInput, append}
use aisdlc.Errors.{Do, deployment_not_found}
use aisdlc.Deploy.Records.{Deployment, DeploymentFailureCategory, PostDeploymentValidationSummary}

unfoldable pub deployment_system_actor : Text
deployment_system_actor = codes "system:deployment"

-- The two statuses that a row may start with.
pub data InitialStatus : Type 0 where
  merged closed : InitialStatus

abbrev pub initial_status : InitialStatus → DeploymentStatus
initial_status merged = DeploymentStatus.eligible
initial_status closed = DeploymentStatus.closed_unmerged

pub record CreateDeploymentInput : Type 0 where
  pub run_id : ObjectId
  pub execution_id : ObjectId
  pub publication_id : ObjectId
  pub owner : Text
  pub repo : Text
  pub pull_request_number : ℕ
  pub merge_commit_sha : Option Text
  pub status : InitialStatus

abbrev initial_end : InitialStatus → ℕ → Option ℕ
initial_end merged now = none
initial_end closed now = some now

unfoldable pub new_deployment : ℕ → CreateDeploymentInput → ObjectId → Deployment
new_deployment now input id = record {
  id = id;
  run_id = input.run_id;
  execution_id = input.execution_id;
  publication_id = input.publication_id;
  owner = input.owner;
  repo = input.repo;
  pull_request_number = input.pull_request_number;
  merge_commit_sha = input.merge_commit_sha;
  status = initial_status input.status;
  provider = none;
  target = none;
  deployment_identifier = none;
  validation = none;
  failure_category = none;
  failure_message = none;
  created_at = now;
  started_at = none;
  completed_at = initial_end input.status now;
}

abbrev pub of_publication : ObjectId → Deployment → Bool
of_publication publication_id deployment = deployment.publication_id == publication_id

abbrev pub has_deployment_id : ObjectId → Deployment → Bool
has_deployment_id id deployment = deployment.id == id

unfoldable pub is_eligible : DeploymentStatus → Bool
is_eligible DeploymentStatus.eligible = true
is_eligible _ = false

-- `{ _id: id, status: 'eligible' }`
abbrev pub claimable : ObjectId → Deployment → Bool
claimable id deployment = deployment.id == id && is_eligible deployment.status

abbrev detected_action : InitialStatus → Text
detected_action merged = codes "github.pr.merge.detected"
detected_action closed = codes "github.pr.closed_without_merge.detected"

abbrev sha_detail : Option Text → List (Text × Datum)
sha_detail none = []
sha_detail (some sha) = (codes "mergeCommitSha", a_text sha) ∷ []

unfoldable pub detected_entry : CreateDeploymentInput → ObjectId → AuditEntryInput
unfolding deployment_system_actor
detected_entry input id = record {
  actor = deployment_system_actor;
  action = detected_action input.status;
  subject_type = AuditSubjectType.deployment;
  subject_id = id;
  detail = some (
      (codes "runId", an_id input.run_id)
      ∷ (codes "executionId", an_id input.execution_id)
      ∷ (codes "publicationId", an_id input.publication_id)
      ∷ (codes "pullRequestNumber", a_number input.pull_request_number)
      ∷ sha_detail input.merge_commit_sha);
  occurred_at = none;
}

pub record MarkSucceededInput : Type 0 where
  pub provider : Text
  pub target : Text
  pub deployment_identifier : Text
  pub validation : PostDeploymentValidationSummary

pub record MarkDeploymentFailedInput : Type 0 where
  pub category : DeploymentFailureCategory
  pub message : Text
  pub validation : Option PostDeploymentValidationSummary

unfoldable pub start : ℕ → Deployment → Deployment
start now d = record d { status = DeploymentStatus.running; started_at = some now }

unfoldable pub succeed : ℕ → MarkSucceededInput → Deployment → Deployment
succeed now input d = record d {
  status = DeploymentStatus.succeeded;
  provider = some input.provider;
  target = some input.target;
  deployment_identifier = some input.deployment_identifier;
  validation = some input.validation;
  completed_at = some now;
}

-- `...(input.validation === undefined ? {} : { validation })`
abbrev validation_or :
    Option PostDeploymentValidationSummary
    → Option PostDeploymentValidationSummary
    → Option PostDeploymentValidationSummary
validation_or none old = old
validation_or (some v) old = some v

unfoldable pub fail : ℕ → MarkDeploymentFailedInput → Deployment → Deployment
fail now input d = record d {
  status = DeploymentStatus.failed;
  failure_category = some input.category;
  failure_message = some input.message;
  validation = validation_or input.validation d.validation;
  completed_at = some now;
}

unfoldable pub deployment_category_name : DeploymentFailureCategory → Text
deployment_category_name DeploymentFailureCategory.not_eligible = codes "not_eligible"
deployment_category_name DeploymentFailureCategory.configuration_invalid =
    codes "configuration_invalid"
deployment_category_name DeploymentFailureCategory.pr_access_failure = codes "pr_access_failure"
deployment_category_name DeploymentFailureCategory.pr_identity_mismatch =
    codes "pr_identity_mismatch"
deployment_category_name DeploymentFailureCategory.conflict = codes "conflict"
deployment_category_name DeploymentFailureCategory.deployment_provider_failure =
    codes "deployment_provider_failure"
deployment_category_name DeploymentFailureCategory.deployment_timeout = codes "deployment_timeout"
deployment_category_name DeploymentFailureCategory.deployment_rejected = codes "deployment_rejected"
deployment_category_name DeploymentFailureCategory.validation_failed = codes "validation_failed"
deployment_category_name DeploymentFailureCategory.validation_timeout = codes "validation_timeout"
deployment_category_name DeploymentFailureCategory.already_deployed = codes "already_deployed"
deployment_category_name DeploymentFailureCategory.unexpected_error = codes "unexpected_error"

module _ (db : Db) where
  abbrev pub get_deployments : World db → db.deployments.State
  get_deployments w = w.deployments

  abbrev pub put_deployments : db.deployments.State → World db → World db
  put_deployments s w = record w { deployments = s }

  abbrev pub StoredDeployment : Type 0
  StoredDeployment = Stored db.deployments get_deployments put_deployments

  unfoldable pub find_by_publication_id : ObjectId → Do db (Option Deployment)
  find_by_publication_id publication_id =
      find_one db.deployments get_deployments put_deployments (of_publication publication_id)

  unfoldable pub audit_detected :
      ℕ → CreateDeploymentInput → StoredDeployment → Do db StoredDeployment
  audit_detected audit_now input result =
      if result.was_created
      then (do _ ← append db audit_now (detected_entry input result.doc.id); pure result)
      else pure result

  -- createIfAbsent
  unfoldable pub record_deployment :
      (World db → World db) → ℕ → ℕ → CreateDeploymentInput → Do db StoredDeployment
  unfolding audit_detected
  record_deployment step now audit_now input = do
    result ←
        insert_or_winner db.deployments get_deployments put_deployments step
          (new_deployment now input) (of_publication input.publication_id)
    audit_detected audit_now input result

  unfoldable pub claim : ℕ → ObjectId → Do db (Option Deployment)
  unfolding is_eligible
  claim now id =
      find_one_and_update db.deployments get_deployments put_deployments (claimable id) (start now)

  unfoldable pub succeeded_entry : MarkSucceededInput → Deployment → ObjectId → AuditEntryInput
  unfolding deployment_system_actor
  succeeded_entry input updated id = record {
    actor = deployment_system_actor;
    action = codes "deployment.completed";
    subject_type = AuditSubjectType.deployment;
    subject_id = id;
    detail = some (
        (codes "runId", an_id updated.run_id)
        ∷ (codes "deploymentIdentifier", a_text input.deployment_identifier)
        ∷ (codes "provider", a_text input.provider)
        ∷ (codes "target", a_text input.target)
        ∷ []);
    occurred_at = none;
  }

  unfoldable pub failed_entry : MarkDeploymentFailedInput → Deployment → ObjectId → AuditEntryInput
  unfolding deployment_system_actor deployment_category_name
  failed_entry input updated id = record {
    actor = deployment_system_actor;
    action = codes "deployment.failed";
    subject_type = AuditSubjectType.deployment;
    subject_id = id;
    detail = some (
        (codes "runId", an_id updated.run_id)
        ∷ (codes "category", a_text (deployment_category_name input.category))
        ∷ []);
    occurred_at = none;
  }

  -- `if (updated === null) throw`, and the audit entry.
  unfoldable pub audit_ended :
      ℕ → ObjectId → (Deployment → AuditEntryInput) → Option Deployment → Do db Deployment
  audit_ended audit_now id entry none = throw (deployment_not_found id)
  audit_ended audit_now id entry (some updated) = do
    _ ← append db audit_now (entry updated)
    pure updated

  unfoldable pub mark_succeeded : ℕ → ℕ → ObjectId → MarkSucceededInput → Do db Deployment
  unfolding audit_ended succeeded_entry
  mark_succeeded now audit_now id input = do
    updated ←
        find_one_and_update db.deployments get_deployments put_deployments (has_deployment_id id)
          (succeed now input)
    audit_ended audit_now id (λ d. succeeded_entry input d id) updated

  unfoldable pub mark_deployment_failed :
      ℕ → ℕ → ObjectId → MarkDeploymentFailedInput → Do db Deployment
  unfolding audit_ended failed_entry
  mark_deployment_failed now audit_now id input = do
    updated ←
        find_one_and_update db.deployments get_deployments put_deployments (has_deployment_id id)
          (fail now input)
    audit_ended audit_now id (λ d. failed_entry input d id) updated
