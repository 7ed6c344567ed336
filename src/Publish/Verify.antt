-- ===== src/Publish/Verify.antt =====
-- execute of src/github-publish/publish-service.ts up to the point where the attempt starts: who may
-- be published, and the refusal with its audit entry. `latest` is findLatestByRunId, a sorted read of
-- the driver; `active` is findActiveByProjectIdentifier of the registry.
use aisdlc.Prelude.{
  Bool, true, false, ◌==◌, ◌&&◌, not, ℕ, Option, List, some, none, [], ◌∷◌, if◌then◌else◌,
}
use aisdlc.Effect.{ok, Action, ◌>>=◌, pure}
use aisdlc.Db.{Db, World}
use aisdlc.Collections.{AuditSubjectType, ChangeExecutionStatus}
use aisdlc.Store.{ObjectId}
use aisdlc.Text.{Text, codes, same}
use aisdlc.Documents.{
  ChangeReview, ChangeExecution, RepositorySelection, Datum, a_text, a_flag, an_id,
}
use aisdlc.AuditLog.{AuditEntryInput, append}
use aisdlc.Errors.{Error}
use aisdlc.Execution.Reviews.{has_id}
use aisdlc.Execution.Eligibility.{is_approved, is_same_review}
use aisdlc.Registry.Records.{RegistryEntry}
use aisdlc.GithubApp.Client.{Answer, answered, refused_with, Repo, GithubAppClient, is_retryable}
use aisdlc.GithubApp.Access.{AuthorizedRepositoryAccess, authorize_repository_access}
use aisdlc.Publish.Records.{GithubPublication, PublishFailureCategory, PublishFailure}
use aisdlc.Publish.Publications.{github_publish_system_actor, publish_category_name, of_execution}
use aisdlc.Site.{Site, on_world, on_remote, ask}

pub data Verdict : Type 0 where
  already_published : GithubPublication → Verdict
  refused : PublishFailure → Verdict
  cleared : ChangeExecution → ChangeReview → Repo → Verdict

abbrev pub has_execution_id : ObjectId → ChangeExecution → Bool
has_execution_id id execution = execution.id == id

abbrev pub selects_for : ObjectId → RepositorySelection → Bool
selects_for run_id selection = selection.run_id == run_id

unfoldable pub is_succeeded : ChangeExecutionStatus → Bool
is_succeeded ChangeExecutionStatus.succeeded = true
is_succeeded ChangeExecutionStatus.failed = false

abbrev id_detail : Text → Option ObjectId → List (Text × Datum)
id_detail key none = []
id_detail key (some id) = (key, an_id id) ∷ []

module _ (db : Db) {R : Type 0} (client : GithubAppClient R)
    (latest : World db → ObjectId → Option ChangeReview)
    (active : World db → Text → List RegistryEntry) (audit_now : ℕ)
    (run_id execution_id : ObjectId) where
  unfoldable pub refusal_entry : Option ObjectId → PublishFailureCategory → Bool → AuditEntryInput
  unfolding github_publish_system_actor publish_category_name
  refusal_entry review_id category retryable = record {
    actor = github_publish_system_actor;
    action = codes "github.write.failed";
    subject_type = AuditSubjectType.run;
    subject_id = run_id;
    detail = some (
        (codes "category", a_text (publish_category_name category))
        ∷ (codes "retryable", a_flag retryable)
        ∷ (codes "executionId", an_id execution_id)
        ∷ id_detail (codes "reviewId") review_id);
    occurred_at = none;
  }

  -- eligibilityFailure: the message goes to the caller and the logger only.
  unfoldable pub fail_eligibility :
      Option ObjectId → PublishFailureCategory → Bool → Action (Site db R) Error PublishFailure
  unfolding refusal_entry on_world
  fail_eligibility review_id category retryable = do
    _ ← on_world (append db audit_now (refusal_entry review_id category retryable))
    pure (record {
      run_id = run_id;
      execution_id = some execution_id;
      review_id = review_id;
      category = category;
      retryable = retryable;
    })

  unfoldable pub refuse :
      Option ObjectId → PublishFailureCategory → Bool → Action (Site db R) Error Verdict
  unfolding fail_eligibility
  refuse review_id category retryable = do
    failure ← fail_eligibility review_id category retryable
    pure (refused failure)

  module _ (execution : ChangeExecution) where
    unfoldable pub verify_identity :
        ChangeReview → Answer AuthorizedRepositoryAccess → Action (Site db R) Error Verdict
    unfolding refuse same is_retryable
    verify_identity review (refused_with kind) =
        refuse (some review.id) PublishFailureCategory.repository_access_failure (is_retryable kind)
    verify_identity review (answered access) =
        if not (same access.target.owner review.owner && same access.target.repo review.repo)
        then refuse (some review.id) PublishFailureCategory.repository_mismatch false
        else if not (same access.branch review.branch)
        then refuse (some review.id) PublishFailureCategory.branch_mismatch false
        else pure (cleared execution review access.target)

    unfoldable pub verify_access :
        ChangeReview → Option RepositorySelection → Action (Site db R) Error Verdict
    unfolding refuse verify_identity on_remote ask
    verify_access review none s =
        refuse (some review.id) PublishFailureCategory.repository_access_failure false s
    verify_access review (some selection) s =
        (do
          answer ←
              on_remote (ask (authorize_repository_access client (active s.world) selection none))
          verify_identity review answer)
          s

    unfoldable pub verify_latest : ChangeReview → Bool → Action (Site db R) Error Verdict
    unfolding refuse verify_access
    verify_latest review false s =
        refuse (some review.id) PublishFailureCategory.review_superseded false s
    verify_latest review true s =
        verify_access review
          (db.repository_selections.find_one (selects_for run_id) s.world.repository_selections) s

    unfoldable pub verify_review : Option ChangeReview → Action (Site db R) Error Verdict
    unfolding refuse verify_latest is_approved same is_same_review
    verify_review none s =
        refuse (some execution.review_id) PublishFailureCategory.review_not_found false s
    verify_review (some review) s =
        if not (is_approved review.status)
        then refuse (some review.id) PublishFailureCategory.review_not_approved false s
        else if not (same execution.proposal_hash review.proposal_hash)
        then refuse (some review.id) PublishFailureCategory.proposal_hash_mismatch false s
        else verify_latest review (is_same_review review (latest s.world run_id)) s

  unfoldable pub verify_execution : Option ChangeExecution → Action (Site db R) Error Verdict
  unfolding refuse verify_review is_succeeded
  verify_execution none s = refuse none PublishFailureCategory.execution_not_found false s
  verify_execution (some execution) s =
      if not (execution.run_id == run_id)
      then refuse (some execution.review_id) PublishFailureCategory.execution_not_found false s
      else if not (is_succeeded execution.status)
      then refuse (some execution.review_id) PublishFailureCategory.execution_not_succeeded false s
      else verify_review execution
          (db.change_reviews.find_one (has_id execution.review_id) s.world.change_reviews) s

  unfoldable pub verify_new : Option GithubPublication → Action (Site db R) Error Verdict
  unfolding verify_execution
  verify_new (some publication) s = (ok (already_published publication), s)
  verify_new none s =
      verify_execution
        (db.change_executions.find_one (has_execution_id execution_id) s.world.change_executions) s

  unfoldable pub verify_publication : Action (Site db R) Error Verdict
  unfolding verify_new
  verify_publication s =
      verify_new
        (db.github_publications.find_one (of_execution execution_id) s.world.github_publications) s
