-- ===== src/Pipeline/RunStage.antt =====
-- src/pipeline/run-status.ts: computeRunStatus, the stage of a run from the documents about it.
use aisdlc.Prelude.{Bool, true, false, if◌then◌else◌, ℕ, Option, some, none}
use aisdlc.Text.{Text, codes}
use aisdlc.Store.{ObjectId}
use aisdlc.Collections.{
  RunStatus, RepositorySelectionStatus, ChangeReviewStatus, ChangeExecutionStatus,
  GithubPublicationStatus, DeploymentStatus,
}
use aisdlc.Documents.{Run, RepositorySelection, ChangeReview, ChangeExecution}
use aisdlc.Execution.Executions.{category_name}
use aisdlc.Publish.Records.{GithubPublication}
use aisdlc.Publish.Publications.{publish_category_name}
use aisdlc.Deploy.Records.{
  Deployment, PostDeploymentValidationSummary, is_post_deployment_validation_successful,
}
use aisdlc.Deploy.Deployments.{deployment_category_name}

pub data RunStage : Type 0 where
  queued repository_selection repository_selection_failed repository_confirmed : RunStage
  change_review change_rejected executing execution_failed publishing publish_failed : RunStage
  awaiting_human_merge pr_closed_unmerged deployment_eligible deploying deployed : RunStage
  deployment_validation_failed deployment_failed failed cancelled : RunStage

pub record RunStatusInputs : Type 0 where
  pub run : Run
  pub selection : Option RepositorySelection
  pub review : Option ChangeReview
  pub execution : Option ChangeExecution
  pub publication : Option GithubPublication
  pub deployment : Option Deployment

-- What the chain of tests decides.
pub record Progress : Type 0 where
  pub stage : RunStage
  pub human_action_description : Option Text
  pub failure_category : Option Text
  pub failure_message : Option Text

abbrev at : RunStage → Progress
at stage = record {
  stage = stage;
  human_action_description = none;
  failure_category = none;
  failure_message = none;
}

abbrev waits : RunStage → Text → Progress
waits stage description = record {
  stage = stage;
  human_action_description = some description;
  failure_category = none;
  failure_message = none;
}

abbrev failed_at : RunStage → Option Text → Option Text → Progress
failed_at stage category message = record {
  stage = stage;
  human_action_description = none;
  failure_category = category;
  failure_message = message;
}

abbrev map_name : {A : Type 0} → (A → Text) → Option A → Option Text
map_name f none = none
map_name f (some a) = some (f a)

unfoldable pub of_validation : Option PostDeploymentValidationSummary → Progress
unfolding is_post_deployment_validation_successful
of_validation none = at deployed
of_validation (some v) =
    if is_post_deployment_validation_successful v
    then at deployed
    else at deployment_validation_failed

unfoldable pub of_deployment : Deployment → DeploymentStatus → Progress
unfolding of_validation deployment_category_name
of_deployment d DeploymentStatus.closed_unmerged = at pr_closed_unmerged
of_deployment d DeploymentStatus.eligible = at deployment_eligible
of_deployment d DeploymentStatus.queued = at deploying
of_deployment d DeploymentStatus.running = at deploying
of_deployment d DeploymentStatus.failed =
    failed_at deployment_failed (map_name deployment_category_name d.failure_category)
      d.failure_message
of_deployment d DeploymentStatus.succeeded = of_validation d.validation

unfoldable pub of_published : Option Deployment → Progress
unfolding of_deployment
of_published (some d) = of_deployment d d.status
of_published none =
    waits awaiting_human_merge
      (codes "Review and merge (or close) the pull request. Merge is never automatic.")

unfoldable pub of_selection : Option RepositorySelection → Progress
of_selection none = at queued
of_selection (some selection) = elim selection.status [
  | RepositorySelectionStatus.selected ↦ at repository_confirmed
  | RepositorySelectionStatus.pending ↦
      waits repository_selection (codes "Confirm which repository this run should target.")
  | RepositorySelectionStatus.ambiguous ↦
      waits repository_selection (codes "Confirm which repository this run should target.")
  | RepositorySelectionStatus.failed ↦
      failed_at repository_selection_failed none selection.failure_reason
]

unfoldable pub of_review : Option ChangeReview → Option RepositorySelection → Progress
unfolding of_selection
of_review none selection = of_selection selection
of_review (some review) selection = elim review.status [
  | ChangeReviewStatus.approved ↦ at executing
  | ChangeReviewStatus.rejected ↦ at change_rejected
  | ChangeReviewStatus.pending ↦
      waits change_review (codes "Approve or reject the proposed changes.")
]

unfoldable pub of_execution :
    Option ChangeExecution → Option ChangeReview → Option RepositorySelection → Progress
unfolding of_review category_name
of_execution none review selection = of_review review selection
of_execution (some execution) review selection = elim execution.status [
  | ChangeExecutionStatus.succeeded ↦ at publishing
  | ChangeExecutionStatus.failed ↦
      failed_at execution_failed (map_name category_name execution.failure_category)
        execution.failure_message
]

unfoldable pub of_publication : RunStatusInputs → Option GithubPublication → Progress
unfolding of_published of_execution publish_category_name
of_publication inputs none = of_execution inputs.execution inputs.review inputs.selection
of_publication inputs (some publication) = elim publication.status [
  | GithubPublicationStatus.published ↦ of_published inputs.deployment
  | GithubPublicationStatus.failed ↦
      failed_at publish_failed (map_name publish_category_name publication.failure_category)
        publication.failure_message
]

unfoldable pub progress : RunStatusInputs → RunStatus → Progress
unfolding of_publication
progress inputs RunStatus.cancelled = at cancelled
progress inputs RunStatus.failed = at failed
progress inputs RunStatus.queued = of_publication inputs inputs.publication
progress inputs RunStatus.running = of_publication inputs inputs.publication
progress inputs RunStatus.succeeded = of_publication inputs inputs.publication

pub record ValidationFlags : Type 0 where
  pub tests : Bool
  pub typecheck : Bool
  pub build : Bool

pub record RunStatusView : Type 0 where
  pub run_id : ObjectId
  pub intake_item_id : ObjectId
  pub issue_key : Text
  pub run_status : RunStatus
  pub stage : RunStage
  pub human_action_required : Bool
  pub human_action_description : Option Text
  pub repository : Option (Text × Text)
  pub branch : Option Text
  pub review_id : Option ObjectId
  pub review_status : Option ChangeReviewStatus
  pub execution_id : Option ObjectId
  pub execution_status : Option ChangeExecutionStatus
  pub validation_summary : Option ValidationFlags
  pub pull_request_number : Option ℕ
  pub pull_request_url : Option Text
  pub merge_commit_sha : Option Text
  pub deployment_id : Option ObjectId
  pub deployment_status : Option DeploymentStatus
  pub deployment_validation : Option (Bool × Bool)
  pub failure_category : Option Text
  pub failure_message : Option Text

abbrev then_get : {A B : Type 0} → Option A → (A → Option B) → Option B
then_get none f = none
then_get (some a) f = f a

abbrev is_given : Option Text → Bool
is_given none = false
is_given (some t) = true

-- `publication?.branch ?? review?.branch ?? null`
abbrev branch_of : Option GithubPublication → Option ChangeReview → Option Text
branch_of (some publication) review = some publication.branch
branch_of none (some review) = some review.branch
branch_of none none = none

unfoldable pub compute_run_status : RunStatusInputs → RunStatusView
unfolding progress
compute_run_status inputs =
    let found = progress inputs inputs.run.status in
    record {
      run_id = inputs.run.id;
      intake_item_id = inputs.run.intake_item_id;
      issue_key = inputs.run.issue_key;
      run_status = inputs.run.status;
      stage = found.stage;
      human_action_required = is_given found.human_action_description;
      human_action_description = found.human_action_description;
      repository = then_get inputs.review (λ r. some (r.owner, r.repo));
      branch = branch_of inputs.publication inputs.review;
      review_id = then_get inputs.review (λ r. some r.id);
      review_status = then_get inputs.review (λ r. some r.status);
      execution_id = then_get inputs.execution (λ e. some e.id);
      execution_status = then_get inputs.execution (λ e. some e.status);
      validation_summary = then_get inputs.execution λ e. then_get e.validation λ v. some (record {
        tests = v.tests.passed;
        typecheck = v.typecheck.passed;
        build = v.build.passed;
      });
      pull_request_number = then_get inputs.publication (λ p. p.pull_request_number);
      pull_request_url = then_get inputs.publication (λ p. p.pull_request_url);
      merge_commit_sha = then_get inputs.deployment (λ d. d.merge_commit_sha);
      deployment_id = then_get inputs.deployment (λ d. some d.id);
      deployment_status = then_get inputs.deployment (λ d. some d.status);
      deployment_validation =
          then_get inputs.deployment
            λ d. then_get d.validation (λ v. some (v.health.passed, v.readiness.passed));
      failure_category = found.failure_category;
      failure_message = found.failure_message;
    }
