-- ===== src/Deploy/Service.antt =====
-- src/deployment/deployment-service.ts: runDeployment. The provider (deployment-provider.ts) and the
-- validator (post-deployment-validator.ts) are interfaces to what is deployed to, which is the remote
-- side of a site: each call is given what that is at the moment, and leaves what it is afterwards.
use aisdlc.Prelude.{Bool, true, false, ◌++◌, if◌then◌else◌, ℕ, Option, List, some, none, [], ◌∷◌}
use aisdlc.Effect.{ok, Action, ◌>>=◌, pure}
use aisdlc.Db.{Db}
use aisdlc.Collections.{AuditSubjectType}
use aisdlc.Documents.{Datum, an_id, a_text, a_flag}
use aisdlc.Store.{ObjectId}
use aisdlc.Text.{Text, codes}
use aisdlc.AuditLog.{append}
use aisdlc.Errors.{Error}
use aisdlc.Site.{Site, on_world, on_remote}
use aisdlc.Deploy.Records.{
  Deployment, DeploymentFailureCategory, DeploymentResult, deployed, not_deployed,
  PostDeploymentValidationSummary, is_post_deployment_validation_successful,
  is_retryable_deployment_category,
}
use aisdlc.Deploy.Deployments.{
  claim, mark_succeeded, mark_deployment_failed, deployment_category_name, deployment_system_actor,
}

pub record DeploymentRequest : Type 0 where
  pub run_id : Text
  pub execution_id : Text
  pub publication_id : Text
  pub owner : Text
  pub repo : Text
  pub merge_commit_sha : Text
  pub target : Text
  pub deployment_identifier : Text

-- A refusal carries its message.
pub data ValidateDeploymentResult : Type 0 where
  acceptable : ValidateDeploymentResult
  unacceptable : (message : Text) → ValidateDeploymentResult

pub data DeployOutcome : Type 0 where
  deploy_done : DeployOutcome
  deploy_refused : (message : Text) (retryable : Bool) → DeployOutcome

pub data DeploymentProviderStatus : Type 0 where
  running succeeded failed unknown : DeploymentProviderStatus

pub record DeploymentProvider (R : Type 0) : Type 0 where
  pub validate_deployment : DeploymentRequest → R → ValidateDeploymentResult × R
  pub deploy : DeploymentRequest → R → DeployOutcome × R
  pub get_deployment_status : Text → R → DeploymentProviderStatus × R
  -- PostDeploymentValidator.validate
  pub validate : DeploymentRequest → Text → R → PostDeploymentValidationSummary × R

-- A call that does not throw.
unfoldable pub call : {R A : Type 0} → (R → A × R) → Action R Error A
call f r = let (a, r') = f r in (ok a, r')

abbrev pub is_status_succeeded : DeploymentProviderStatus → Bool
is_status_succeeded DeploymentProviderStatus.succeeded = true
is_status_succeeded _ = false

unfoldable pub deployment_identifier_for : (ObjectId → Text) → Deployment → Text
deployment_identifier_for hex d =
    codes "deployment-" ++ (hex d.run_id ++ (codes "-" ++ hex d.execution_id))

unfoldable pub failure_category_of : (retryable : Bool) → DeploymentFailureCategory
failure_category_of retryable =
    if retryable
    then DeploymentFailureCategory.deployment_timeout
    else DeploymentFailureCategory.deployment_provider_failure

abbrev validation_action : Bool → Text
validation_action true = codes "deployment.validation.completed"
validation_action false = codes "deployment.validation.failed"

module _ (db : Db) {R : Type 0} (provider : DeploymentProvider R) (hex : ObjectId → Text)
    (provider_name target : Text) (now audit_now : ℕ) (deployment_id : ObjectId) where
  -- An audit entry about the deployment.
  unfoldable pub note : Text → List (Text × Datum) → Action (Site db R) Error ObjectId
  unfolding on_world deployment_system_actor
  note action detail = on_world (
      append db audit_now (record {
        actor = deployment_system_actor;
        action = action;
        subject_type = AuditSubjectType.deployment;
        subject_id = deployment_id;
        detail = some detail;
        occurred_at = none;
      }))

  -- eligibilityFailure
  unfoldable pub refuse :
      ObjectId → DeploymentFailureCategory → Action (Site db R) Error DeploymentResult
  unfolding on_world deployment_system_actor deployment_category_name
      is_retryable_deployment_category
  refuse run_id category = do
    _ ← on_world (
        append db audit_now (record {
          actor = deployment_system_actor;
          action = codes "deployment.failed";
          subject_type = AuditSubjectType.run;
          subject_id = run_id;
          detail = some (
              (codes "deploymentId", an_id deployment_id)
              ∷ (codes "category", a_text (deployment_category_name category))
              ∷ []);
          occurred_at = none;
        }))
    pure (not_deployed run_id deployment_id category (is_retryable_deployment_category category))

  unfoldable pub give_up :
      ObjectId
      → DeploymentFailureCategory
      → (message : Text) → (retryable : Bool) → Action (Site db R) Error DeploymentResult
  unfolding on_world mark_deployment_failed
  give_up run_id category message retryable = do
    _ ← on_world (
        mark_deployment_failed db now audit_now deployment_id
          (record { category = category; message = message; validation = none }))
    pure (not_deployed run_id deployment_id category retryable)

  module _ (claimed : Deployment) where
    abbrev pub identifier : Text
    identifier = deployment_identifier_for hex claimed

    abbrev pub request_for : (merge_commit_sha : Text) → DeploymentRequest
    request_for merge_commit_sha = record {
      run_id = hex claimed.run_id;
      execution_id = hex claimed.execution_id;
      publication_id = hex claimed.publication_id;
      owner = claimed.owner;
      repo = claimed.repo;
      merge_commit_sha = merge_commit_sha;
      target = target;
      deployment_identifier = identifier;
    }

    abbrev pub result_of : PostDeploymentValidationSummary → DeploymentResult
    result_of validation =
        if is_post_deployment_validation_successful validation
        then deployed claimed.run_id deployment_id identifier validation
        else not_deployed claimed.run_id deployment_id DeploymentFailureCategory.validation_failed
            false

    unfoldable pub after_validation :
        PostDeploymentValidationSummary → Action (Site db R) Error DeploymentResult
    unfolding note on_world mark_succeeded is_post_deployment_validation_successful
        deployment_identifier_for
    after_validation validation = do
      _ ← note (validation_action (is_post_deployment_validation_successful validation)) (
          (codes "runId", an_id claimed.run_id)
          ∷ (codes "healthOk", a_flag validation.health.passed)
          ∷ (codes "readinessOk", a_flag validation.readiness.passed)
          ∷ [])
      _ ← on_world (
          mark_succeeded db now audit_now deployment_id (record {
            provider = provider_name;
            target = target;
            deployment_identifier = identifier;
            validation = validation;
          }))
      pure (result_of validation)

    unfoldable pub after_deploy :
        (merge_commit_sha : Text) → Action (Site db R) Error DeploymentResult
    unfolding note on_remote call after_validation deployment_identifier_for
    after_deploy merge_commit_sha = do
      _ ← note (codes "deployment.validation.started") ((codes "runId", an_id claimed.run_id) ∷ [])
      validation ← on_remote (call (provider.validate (request_for merge_commit_sha) identifier))
      after_validation validation

    -- An ambiguous failure: the deployment may have landed.
    unfoldable pub reconcile :
        (merge_commit_sha : Text) → DeployOutcome → Action (Site db R) Error DeploymentResult
    unfolding after_deploy on_remote call give_up failure_category_of deployment_identifier_for
    reconcile merge_commit_sha deploy_done = after_deploy merge_commit_sha
    reconcile merge_commit_sha (deploy_refused message retryable) = do
      status ← on_remote (call (provider.get_deployment_status identifier))
      if is_status_succeeded status
          then after_deploy merge_commit_sha
          else give_up claimed.run_id (failure_category_of retryable) message retryable

    unfoldable pub after_check :
        (merge_commit_sha : Text)
        → ValidateDeploymentResult
        → Action (Site db R) Error DeploymentResult
    unfolding reconcile on_remote call give_up
    after_check merge_commit_sha (unacceptable message) =
        give_up claimed.run_id DeploymentFailureCategory.configuration_invalid message false
    after_check merge_commit_sha acceptable = do
      outcome ← on_remote (call (provider.deploy (request_for merge_commit_sha)))
      reconcile merge_commit_sha outcome

    unfoldable pub check_commit : Option Text → Action (Site db R) Error DeploymentResult
    unfolding after_check on_remote call give_up deployment_identifier_for
    check_commit none =
        give_up claimed.run_id DeploymentFailureCategory.configuration_invalid
          (codes "deployment has no merge commit sha") false
    check_commit (some merge_commit_sha) = do
      checked ← on_remote (call (provider.validate_deployment (request_for merge_commit_sha)))
      after_check merge_commit_sha checked

    unfoldable pub run_claimed : Action (Site db R) Error DeploymentResult
    unfolding note check_commit
    run_claimed = do
      _ ← note (codes "deployment.started") (
          (codes "runId", an_id claimed.run_id)
          ∷ (codes "publicationId", an_id claimed.publication_id)
          ∷ [])
      check_commit claimed.merge_commit_sha

  unfoldable pub after_claim :
      ObjectId → Option Deployment → Action (Site db R) Error DeploymentResult
  unfolding refuse run_claimed
  after_claim run_id none = refuse run_id DeploymentFailureCategory.already_deployed
  after_claim run_id (some claimed) = run_claimed claimed

  -- runDeployment, of the row with the given id and run.
  unfoldable pub run_deployment : (run_id : ObjectId) → Action (Site db R) Error DeploymentResult
  unfolding on_world claim after_claim
  run_deployment run_id = do
    claimed ← on_world (claim db now deployment_id)
    after_claim run_id claimed
