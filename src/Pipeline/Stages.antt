-- ===== src/Pipeline/Stages.antt =====
-- What the stages of src/pipeline/run-status.ts say.
use aisdlc.Prelude.{◌≡◌, refl, arith, Bool, true, false, Option, some, none}
use aisdlc.Collections.{RunStatus, GithubPublicationStatus, DeploymentStatus}
use aisdlc.Documents.{RepositorySelection, ChangeReview, ChangeExecution}
use aisdlc.Publish.Records.{GithubPublication}
use aisdlc.Deploy.Records.{
  Deployment, PostDeploymentValidationSummary, is_post_deployment_validation_successful,
}
use aisdlc.Pipeline.RunStage.{
  RunStage, repository_selection, change_review, awaiting_human_merge, RunStatusInputs,
  compute_run_status, progress, of_publication, of_published, of_deployment, of_validation,
  of_execution, of_review, of_selection,
}

-- The stages at which a human has to act.
abbrev pub is_human_stage : RunStage → Bool
is_human_stage repository_selection = true
is_human_stage change_review = true
is_human_stage awaiting_human_merge = true
is_human_stage _ = false

-- A human has to act in three stages: the selection of a repository, the review and the merge.
pub compute_run_status-human :
    (inputs : RunStatusInputs)
    → (compute_run_status inputs).human_action_required
      ≡ is_human_stage (compute_run_status inputs).stage
unfolding compute_run_status progress of_publication of_published of_deployment of_validation
    of_execution of_review of_selection
compute_run_status-human inputs = ground arith

-- What the documents of a run say that is being deployed or is deployed.
pub record IsDelivered (inputs : RunStatusInputs) : Type 0 where
  pub publication : GithubPublication
  pub deployment : Deployment
  pub published : inputs.publication ≡ some publication
  pub is_published : publication.status ≡ GithubPublicationStatus.published
  pub stored : inputs.deployment ≡ some deployment
  pub is_succeeded : deployment.status ≡ DeploymentStatus.succeeded
  pub validated :
      (v : PostDeploymentValidationSummary)
      → deployment.validation ≡ some v
      → is_post_deployment_validation_successful v ≡ true

execution-undelivered :
    (execution : Option ChangeExecution) (review : Option ChangeReview)
    (selection : Option RepositorySelection)
    → (of_execution execution review selection).stage ≡ RunStage.deployed
    → ⊥
unfolding of_execution of_review of_selection
execution-undelivered execution review selection h = ground arith

validation-passed :
    (validation : Option PostDeploymentValidationSummary)
    → (of_validation validation).stage ≡ RunStage.deployed
    → (v : PostDeploymentValidationSummary) → validation ≡ some v
    → is_post_deployment_validation_successful v ≡ true
unfolding of_validation
validation-passed validation h v e = ground arith

deployment-succeeded :
    (d : Deployment) (status : DeploymentStatus)
    → (of_deployment d status).stage ≡ RunStage.deployed
    → (status ≡ DeploymentStatus.succeeded)
      × ((of_validation d.validation).stage ≡ RunStage.deployed)
unfolding of_deployment
deployment-succeeded d DeploymentStatus.succeeded h = (refl, h)
deployment-succeeded d DeploymentStatus.closed_unmerged h = cc
deployment-succeeded d DeploymentStatus.eligible h = cc
deployment-succeeded d DeploymentStatus.queued h = cc
deployment-succeeded d DeploymentStatus.running h = cc
deployment-succeeded d DeploymentStatus.failed h = cc

published-IsDelivered :
    (inputs : RunStatusInputs) (publication : GithubPublication) (found : Option Deployment)
    → inputs.publication ≡ some publication
    → publication.status ≡ GithubPublicationStatus.published
    → inputs.deployment ≡ found
    → (of_published found).stage ≡ RunStage.deployed
    → IsDelivered inputs
unfolding of_published
published-IsDelivered inputs publication none e p f h = cc
published-IsDelivered inputs publication (some d) e p f h =
    let (done, validated) = deployment-succeeded d d.status h in
    record {
      publication = publication;
      deployment = d;
      published = e;
      is_published = p;
      stored = f;
      is_succeeded = done;
      validated = validation-passed d.validation validated;
    }

publication-IsDelivered :
    (inputs : RunStatusInputs) (found : Option GithubPublication)
    → inputs.publication ≡ found
    → (of_publication inputs found).stage ≡ RunStage.deployed
    → IsDelivered inputs
unfolding of_publication
publication-IsDelivered inputs none e h =
    absurd (execution-undelivered inputs.execution inputs.review inputs.selection h)
publication-IsDelivered inputs (some publication) e h = go publication.status refl
  where
    go : (status : GithubPublicationStatus) → publication.status ≡ status → IsDelivered inputs
    go GithubPublicationStatus.published p =
        published-IsDelivered inputs publication inputs.deployment e p refl
          (rw (of_publication, p) at h)
    go GithubPublicationStatus.failed p = cc (rw (of_publication, p) at h)

progress-IsDelivered :
    (inputs : RunStatusInputs) (status : RunStatus)
    → (progress inputs status).stage ≡ RunStage.deployed
    → IsDelivered inputs
unfolding progress
progress-IsDelivered inputs RunStatus.cancelled h = cc
progress-IsDelivered inputs RunStatus.failed h = cc
progress-IsDelivered inputs RunStatus.queued h = publication-IsDelivered inputs _ refl h
progress-IsDelivered inputs RunStatus.running h = publication-IsDelivered inputs _ refl h
progress-IsDelivered inputs RunStatus.succeeded h = publication-IsDelivered inputs _ refl h

-- If the stage of a run is deployed, then there is a publication with status published and a
-- deployment with status succeeded, and a validation result that it carries is successful.
pub compute_run_status-IsDelivered :
    (inputs : RunStatusInputs)
    → (compute_run_status inputs).stage ≡ RunStage.deployed
    → IsDelivered inputs
unfolding compute_run_status
compute_run_status-IsDelivered inputs h = progress-IsDelivered inputs inputs.run.status h
